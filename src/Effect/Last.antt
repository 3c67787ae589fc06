-- ===== src/Effect/Last.antt =====
-- Statements whose last call is a certain one, and that make no other call of its kind.
use rabbitmq_cxx.Base.{◌≡◌, ◌≢◌, refl, ◌∙◌, Bool, ◌∷◌, arith}
use rabbitmq_cxx.Amqp.{Call, Trace, Library}
use rabbitmq_cxx.Effect.{Effect, Outcome, done, throws, terminated, ◌>>=◌, notify, defer, leave}
use rabbitmq_cxx.Effect.Calls.{Adds, count}
use rabbitmq_cxx.Effect.Survives.{Survives, Returns}

pub record EndsWith {A : Type 0} (p : Call → Bool) (k : Call) (m : Effect A) : Type 0 where
  pub at :
      (lib : Library) (h : Trace) → (t : Trace) × ((m lib h).1 ≡ k ∷ t) × (count p t ≡ count p h)

module _ {p : Call → Bool} {k : Call} where
  pub EndsWith-notify : EndsWith p k (notify k)
  unfolding notify
  EndsWith-notify = record { at = λ lib h. (h, refl, refl) }

  pub EndsWith-bind :
      {A B : Type 0} (m : Effect A) (f : A → Effect B)
      → Adds p 0 m
      → Returns m
      → ((a : A) → EndsWith p k (f a))
      → EndsWith p k (m >>= f)
  unfolding ◌>>=◌
  EndsWith-bind m f am r ef = record {
    at = λ lib h.
        let (a, e) = r.at lib h in
        let (t, q, n) = (ef a).at lib (m lib h).1 in (t, rw e q, omega (arith, am.at lib h));
  }

  pub EndsWith-defer :
      {A : Type 0} (g : Effect (Unit {0})) (m : Effect A)
      → Adds p 0 m
      → Survives m
      → EndsWith p k g
      → EndsWith p k (defer g m)
  unfolding defer
  EndsWith-defer {A} g m am alive eg = record {
    at = λ lib h.
        let r = m lib h in
        let (t, q, n) = eg.at lib r.1 in
        (t, go lib r.0 r.1 (alive.at lib h) ∙ q, omega (arith, am.at lib h));
  }
    where
      go :
          (lib : Library) (o : Outcome A) (t : Trace)
          → o ≢ terminated
          → (leave o g lib t).1 ≡ (g lib t).1
      go lib (done a) t n = refl
      go lib (throws x) t n = refl
      go lib terminated t n = absurd (n refl)
