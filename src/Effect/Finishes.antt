-- ===== src/Effect/Finishes.antt =====
-- Statements with fuel, which are `none` when it runs out.
use rabbitmq_cxx.Base.{◌≢◌, Option, none}
use rabbitmq_cxx.Amqp.{Trace, Library}
use rabbitmq_cxx.Effect.{
  Effect, Outcome, done, throws, terminated, ◌>>=◌, defer, continue, leave, settle,
}

-- With this library, the statement does not run out of fuel.
abbrev pub Finishes : {A : Type 0} → Library → Effect (Option A) → Type 0
Finishes lib m = (h : Trace) → (m lib h).0 ≢ done none

module _ {A : Type 0} (lib : Library) where
  pub Finishes-bind :
      {B : Type 0} (m : Effect B) (f : B → Effect (Option A))
      → ((b : B) → Finishes lib (f b))
      → Finishes lib (m >>= f)
  unfolding ◌>>=◌
  Finishes-bind {B} m f finishes h = let r = m lib h in go r.0 r.1
    where
      go : (o : Outcome B) (t : Trace) → (continue o f lib t).0 ≢ done none
      go (done b) t = finishes b t
      go (throws x) t = λ e. cc
      go terminated t = λ e. cc

  pub Finishes-defer :
      (g : Effect (Unit {0})) (m : Effect (Option A)) → Finishes lib m → Finishes lib (defer g m)
  unfolding defer
  Finishes-defer g m finishes h = let r = m lib h in go r.0 r.1 (finishes h)
    where
      settle-done :
          (o : Outcome (Option A)) (u : Outcome (Unit {0})) → o ≢ done none → settle o u ≢ done none
      settle-done (done a) (done u) n = n
      settle-done (done a) (throws x) n = λ e. cc
      settle-done (done a) terminated n = λ e. cc
      settle-done (throws x) (done u) n = λ e. cc
      settle-done (throws x) (throws y) n = λ e. cc
      settle-done (throws x) terminated n = λ e. cc
      settle-done terminated u n = λ e. cc

      go : (o : Outcome (Option A)) (t : Trace) → o ≢ done none → (leave o g lib t).0 ≢ done none
      go (done a) t n = settle-done (done a) (g lib t).0 n
      go (throws x) t n = settle-done (throws x) (g lib t).0 n
      go terminated t n = n
