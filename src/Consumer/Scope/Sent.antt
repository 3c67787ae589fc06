-- ===== src/Consumer/Scope/Sent.antt =====
-- The delivery tags that are acknowledged by the calls of the worker of examples/advconsumer.cpp.
use mathlib.Core.List.{append_assoc}
use rabbitmq_cxx.Base.{
  ℕ, ◌≤◌, ◌≡◌, refl, Bool, true, false, List, [], ◌∷◌, ◌++◌, Option, none, some, arith,
  if◌then◌else◌,
}
use rabbitmq_cxx.Amqp.{Call, Trace, basic_ack}
use rabbitmq_cxx.Effect.Calls.{count}
use rabbitmq_cxx.Channel.{Channel}
use rabbitmq_cxx.Consumer.Scope.Acks.{is_basic_ack, is_ack_of, asked}

abbrev acked_in : Call → List ℕ
acked_in (basic_ack s n t m) = t ∷ []
acked_in _ = []

-- The tags of the acknowledgements, the newest first.
unfoldable pub acks_in : Trace → List ℕ
acks_in [] = []
acks_in (c ∷ h) = acked_in c ++ acks_in h

abbrev pub ids : Option ℕ → List ℕ
ids none = []
ids (some id) = id ∷ []

pub acks_in-none : (d : Trace) → count is_basic_ack d ≡ 0 → acks_in d ≡ []
unfolding acks_in count
acks_in-none [] p = refl
acks_in-none (basic_ack s n t m ∷ d) p = absurd (omega (arith, p))
acks_in-none (_ ∷ d) p = acks_in-none d p

own-le :
    (ch : Channel) (front : Option ℕ) (d : Trace)
    → count (is_ack_of ch front) d ≤ count is_basic_ack d
unfolding count
own-le ch front [] = omega arith
own-le ch front (basic_ack s n t m ∷ d) =
    go (is_ack_of ch front (basic_ack s n t m)) (own-le ch front d)
  where
    go :
        (b : Bool)
        → count (is_ack_of ch front) d ≤ count is_basic_ack d
        → (if b then ℕ.suc (count (is_ack_of ch front) d) else count (is_ack_of ch front) d)
          ≤ ℕ.suc (count is_basic_ack d)
    go true le = omega (arith, le)
    go false le = omega (arith, le)
own-le ch front (_ ∷ d) = own-le ch front d

is_ack_of-id :
    (ch : Channel) (id s n t : ℕ) (m : Bool)
    → is_ack_of ch (some id) (basic_ack s n t m) ≡ true
    → t ≡ id
is_ack_of-id ch id s n t m e = ground (arith, e)

acks_in-one :
    (ch : Channel) (id : ℕ) (d : Trace)
    → count is_basic_ack d ≡ 1
    → count (is_ack_of ch (some id)) d ≡ 1
    → acks_in d ≡ id ∷ []
unfolding acks_in count
acks_in-one ch id [] p q = absurd (omega (arith, p))
acks_in-one ch id (basic_ack s n t m ∷ d) p q =
    go (is_ack_of ch (some id) (basic_ack s n t m)) refl q
  where
    none_left : count is_basic_ack d ≡ 0
    none_left = omega (arith, p)

    go :
        (b : Bool)
        → is_ack_of ch (some id) (basic_ack s n t m) ≡ b
        → (if b then ℕ.suc (count (is_ack_of ch (some id)) d) else count (is_ack_of ch (some id)) d)
          ≡ 1
        → t ∷ acks_in d ≡ id ∷ []
    go true e q' = rw (acks_in-none d none_left, is_ack_of-id ch id s n t m e) refl
    go false e q' = absurd (omega (arith, q', none_left, own-le ch (some id) d))
acks_in-one ch id (_ ∷ d) p q = acks_in-one ch id d p q

-- If one acknowledgement is made, and it is of the tag in front, it is the only tag.
pub acks_in-ids :
    (ch : Channel) (front : Option ℕ) (d : Trace)
    → count is_basic_ack d ≡ asked front
    → count (is_ack_of ch front) d ≡ asked front
    → acks_in d ≡ ids front
acks_in-ids ch none d p q = acks_in-none d p
acks_in-ids ch (some id) d p q = acks_in-one ch id d p q

pub acks_in-append : (d h : Trace) → acks_in (d ++ h) ≡ acks_in d ++ acks_in h
unfolding acks_in
acks_in-append [] h = refl
acks_in-append (c ∷ d) h =
    rw (acks_in-append d h, append_assoc (acked_in c) (acks_in d) (acks_in h)) refl
