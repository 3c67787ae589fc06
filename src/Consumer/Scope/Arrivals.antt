-- ===== src/Consumer/Scope/Arrivals.antt =====
-- The messages that the callback in examples/advconsumer.cpp makes of the envelopes it is called with.
use mathlib.Core.List.{append-nil, append_assoc}
use mathlib.Core.Path.{sym}
use rabbitmq_cxx.Base.{
  ℕ, ◌≤◌, ◌≡◌, ◌⊎◌, inl, inr, refl, Bool, true, false, List, [], ◌∷◌, ◌++◌, map, arith,
}
use rabbitmq_cxx.Amqp.{Call, Trace, RawEnvelope, on_envelope}
use rabbitmq_cxx.Effect.Calls.{count}
use rabbitmq_cxx.Connection.Consume.Reports.Callbacks.{is_on_envelope}
use rabbitmq_cxx.Consumer.{Tag, Message}

-- Message{envelope->delivery_tag, envelope.body()}
abbrev pub message_of : ℕ → RawEnvelope → Message
message_of session e = record {
  tag = record { session = session; id = e.delivery_tag };
  body = e.message.body;
}

abbrev message_in : ℕ → Call → List Message
message_in session (on_envelope e) = message_of session e ∷ []
message_in session _ = []

-- The messages of the calls, the oldest first.
unfoldable pub messages_of : ℕ → Trace → List Message
messages_of session [] = []
messages_of session (c ∷ h) = messages_of session h ++ message_in session c

-- A list of at most one message, which is of the session.
abbrev pub IsBrief : ℕ → List Message → Type 0
IsBrief session ms = (ms ≡ []) ⊎ ((m : Message) × (ms ≡ m ∷ []) × (m.tag.session ≡ session))

message_in-quiet : (session : ℕ) (c : Call) → is_on_envelope c ≡ false → message_in session c ≡ []
message_in-quiet session (on_envelope e) q = cc
message_in-quiet session _ q = refl

message_in-IsBrief :
    (session : ℕ) (c : Call)
    → is_on_envelope c ≡ true
    → (m : Message) × (message_in session c ≡ m ∷ []) × (m.tag.session ≡ session)
message_in-IsBrief session (on_envelope e) q = (message_of session e, refl, refl)
message_in-IsBrief session _ q = cc

pub messages_of-none :
    (session : ℕ) (d : Trace) → count is_on_envelope d ≡ 0 → messages_of session d ≡ []
unfolding messages_of count
messages_of-none session [] q = refl
messages_of-none session (c ∷ d) q = go (is_on_envelope c) refl (λ z. messages_of-none session d z)
  where
    go :
        (b : Bool)
        → is_on_envelope c ≡ b
        → (count is_on_envelope d ≡ 0 → messages_of session d ≡ [])
        → messages_of session d ++ message_in session c ≡ []
    go true e rest = let q' = (rw e at q) in ground (arith, q')
    go false e rest = let q' = (rw e at q) in rw (rest q', message_in-quiet session c e) refl

pub messages_of-IsBrief :
    (session : ℕ) (d : Trace) → count is_on_envelope d ≤ 1 → IsBrief session (messages_of session d)
unfolding messages_of count
messages_of-IsBrief session [] le = inl refl
messages_of-IsBrief session (c ∷ d) le =
    go (is_on_envelope c) refl (λ l. messages_of-IsBrief session d l)
  where
    go :
        (b : Bool)
        → is_on_envelope c ≡ b
        → (count is_on_envelope d ≤ 1 → IsBrief session (messages_of session d))
        → IsBrief session (messages_of session d ++ message_in session c)
    go true e rest =
        let none : count is_on_envelope d ≡ 0 = (let l = (rw e at le) in omega (arith, l)) in
        rw (messages_of-none session d none) (inr (message_in-IsBrief session c e))
    go false e rest =
        let l = (rw e at le) in
        rw (message_in-quiet session c e, append-nil (messages_of session d)) (rest l)

pub messages_of-append :
    (session : ℕ) (d h : Trace)
    → messages_of session (d ++ h) ≡ messages_of session h ++ messages_of session d
unfolding messages_of
messages_of-append session [] h = sym (append-nil (messages_of session h))
messages_of-append session (c ∷ d) h =
    rw
      (
        messages_of-append session d h,
        append_assoc (messages_of session h) (messages_of session d) (message_in session c),
      )
      refl

abbrev arrival_in : Call → List ℕ
arrival_in (on_envelope e) = e.delivery_tag ∷ []
arrival_in _ = []

-- The tags of the envelopes that the callback is called with, the newest first.
unfoldable pub arrivals_in : Trace → List ℕ
arrivals_in [] = []
arrivals_in (c ∷ h) = arrival_in c ++ arrivals_in h

pub arrivals_in-none : (d : Trace) → count is_on_envelope d ≡ 0 → arrivals_in d ≡ []
unfolding arrivals_in count
arrivals_in-none [] q = refl
arrivals_in-none (on_envelope e ∷ d) q = absurd (omega (arith, q))
arrivals_in-none (_ ∷ d) q = arrivals_in-none d q

pub arrivals_in-append : (d h : Trace) → arrivals_in (d ++ h) ≡ arrivals_in d ++ arrivals_in h
unfolding arrivals_in
arrivals_in-append [] h = refl
arrivals_in-append (c ∷ d) h =
    rw (arrivals_in-append d h, append_assoc (arrival_in c) (arrivals_in d) (arrivals_in h)) refl

abbrev pub tags_of : List Message → List Tag
tags_of ms = map (λ (m : Message). m.tag) ms

abbrev pub ids_of : List Tag → List ℕ
ids_of ts = map (λ (t : Tag). t.id) ts

-- Of at most one envelope, they are the tags of the message.
pub messages_of-arrivals :
    (session : ℕ) (d : Trace)
    → count is_on_envelope d ≤ 1
    → ids_of (tags_of (messages_of session d)) ≡ arrivals_in d
unfolding messages_of arrivals_in count
messages_of-arrivals session [] le = refl
messages_of-arrivals session (on_envelope e ∷ d) le =
    let q : count is_on_envelope d ≡ 0 = omega (arith, le) in
    rw (messages_of-none session d q, arrivals_in-none d q) refl
messages_of-arrivals session (_ ∷ d) le =
    rw (append-nil (messages_of session d)) (messages_of-arrivals session d le)
