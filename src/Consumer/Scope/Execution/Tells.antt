-- ===== src/Consumer/Scope/Execution/Tells.antt =====
-- What the calls of an execution of examples/advconsumer.cpp tell of its states.
use mathlib.Core.List.{Sublistᴰ}
use mathlib.Core.Path.{subst}
use rabbitmq_cxx.Base.{
  ℕ, ◌+◌, Bool, true, false, ◌≤◌, length, ◌≡◌, inl, inr, refl, List, [], ◌∷◌, ◌++◌, Option, none,
  some, arith,
}
use rabbitmq_cxx.Amqp.{Call, Trace, print_error}
use rabbitmq_cxx.Exceptions.{Exception}
use rabbitmq_cxx.Effect.Calls.{count}
use rabbitmq_cxx.Effect.Writes.{count-append}
use rabbitmq_cxx.Connection.Consume.Reports.Callbacks.{is_on_envelope}
use rabbitmq_cxx.Consumer.{Tag, Sent, System}
use rabbitmq_cxx.Consumer.Steps.{Step, init}
use rabbitmq_cxx.Consumer.Scope.Acks.{is_basic_ack, asked}
use rabbitmq_cxx.Consumer.Scope.Arrivals.{arrivals_in, arrivals_in-none, arrivals_in-append, ids_of}
use rabbitmq_cxx.Consumer.Scope.Execution.{IsInternal, IsQuiet, reported}
use rabbitmq_cxx.Consumer.Scope.Others.{sent_ids}
use rabbitmq_cxx.Consumer.Scope.Refines.{sent_of, front_of}
use rabbitmq_cxx.Consumer.Scope.Sent.{acks_in, acks_in-append}

-- A step without calls of the headers neither delivers nor acknowledges.
pub calm :
    {s t : System}
    → Step s t
    → IsQuiet s t
    → (t.delivered ≡ s.delivered) × (t.acknowledged ≡ s.acknowledged)
calm (Step.envelope m w e) (inl same) = cc
calm (Step.envelope m w e) (inr internal) = absurd (subst IsInternal w internal)
calm (Step.ack_front t ts w q) (inl same) = cc
calm (Step.ack_front t ts w q) (inr internal) = absurd (subst IsInternal w internal)
calm _ q = (refl, refl)

prefix-Sublistᴰ : (zs : List ℕ) {xs ys : List ℕ} → Sublistᴰ xs ys → Sublistᴰ xs (zs ++ ys)
prefix-Sublistᴰ [] s = s
prefix-Sublistᴰ (z ∷ zs) s = Sublistᴰ.cons (prefix-Sublistᴰ zs s)

pub both-Sublistᴰ : (zs : List ℕ) {xs ys : List ℕ} → Sublistᴰ xs ys → Sublistᴰ (zs ++ xs) (zs ++ ys)
both-Sublistᴰ [] s = s
both-Sublistᴰ (z ∷ zs) s = Sublistᴰ.cons-cons refl (both-Sublistᴰ zs s)

abbrev pub is_report : Call → Bool
is_report (print_error l) = true
is_report _ = false

-- What the calls tell of a state.
abbrev pub Tells : System → Trace → Type 0
Tells s h =
    (ids_of s.delivered ≡ arrivals_in h)
    × Sublistᴰ (sent_ids s) (acks_in h)
    × (count is_basic_ack h ≤ length s.acknowledged + count is_report h)

-- Calls among which nothing arrives.
pub silent :
    (s : System) (d h : Trace)
    → count is_on_envelope (d ++ h) ≡ count is_on_envelope h + 0
    → ids_of s.delivered ≡ arrivals_in h
    → ids_of s.delivered ≡ arrivals_in (d ++ h)
silent s d h n e =
    rw
      (
        arrivals_in-append d h,
        arrivals_in-none d (omega (arith, n, count-append is_on_envelope d h)),
      )
      e

pub sent_before :
    (s : System) (d h : Trace)
    → Sublistᴰ (sent_ids s) (acks_in h)
    → Sublistᴰ (sent_ids s) (acks_in (d ++ h))
sent_before s d h le = rw (acks_in-append d h) (prefix-Sublistᴰ (acks_in d) le)

-- Calls that acknowledge nothing, and those of a failed acknowledgement, which is reported.
pub bound :
    (l : ℕ) (d h : Trace)
    → count is_basic_ack (d ++ h) ≡ count is_basic_ack h + 0
    → count is_basic_ack h ≤ l + count is_report h
    → count is_basic_ack (d ++ h) ≤ l + count is_report (d ++ h)
bound l d h n le = omega (arith, n, le, count-append is_report d h)

bound_reported :
    (l k : ℕ) (e : Exception) (d h : Trace)
    → count is_basic_ack (d ++ h) ≡ count is_basic_ack h + k
    → k ≤ 1
    → count is_basic_ack h ≤ l + count is_report h
    → count is_basic_ack (reported e (d ++ h)) ≤ l + count is_report (reported e (d ++ h))
unfolding count
bound_reported l k e d h n one le = omega (arith, n, one, le, count-append is_report d h)

-- Calls among which nothing arrives, and that acknowledge nothing, or fail to.
pub unseen :
    (s : System) (d h : Trace)
    → count is_on_envelope (d ++ h) ≡ count is_on_envelope h + 0
    → count is_basic_ack (d ++ h) ≡ count is_basic_ack h + 0
    → Tells s h
    → Tells s (d ++ h)
unseen s d h n m (arrived, sent, le) =
    (silent s d h n arrived, sent_before s d h sent, bound _ d h m le)

pub refused :
    (s : System) (k : ℕ) (e : Exception) (d h : Trace)
    → count is_on_envelope (d ++ h) ≡ count is_on_envelope h + 0
    → count is_basic_ack (d ++ h) ≡ count is_basic_ack h + k
    → k ≤ 1
    → Tells s h
    → Tells s (reported e (d ++ h))
unfolding arrivals_in acks_in
refused s k e d h n m one (arrived, sent, le) =
    (silent s d h n arrived, sent_before s d h sent, bound_reported _ k e d h m one le)

pub bound_acked :
    (session : ℕ) (q : List Tag) (xs : List Sent) (d h : Trace)
    → count is_basic_ack (d ++ h) ≡ count is_basic_ack h + asked (front_of q)
    → count is_basic_ack h ≤ length xs + count is_report h
    → count is_basic_ack (d ++ h) ≤ length (sent_of session q ++ xs) + count is_report (d ++ h)
bound_acked session [] xs d h n le = omega (arith, n, le, count-append is_report d h)
bound_acked session (t ∷ ts) xs d h n le = omega (arith, n, le, count-append is_report d h)

pub start_tells : (n : ℕ) → Tells (init n) []
unfolding arrivals_in acks_in count
start_tells n = (refl, Sublistᴰ.slnil, omega arith)

pub asked-le : (front : Option ℕ) → asked front ≤ 1
asked-le none = omega arith
asked-le (some id) = omega arith
