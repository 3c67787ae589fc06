-- ===== src/Effect/Calls.antt =====
-- Counting the calls of a kind that a statement makes. `Adds p n m`: whatever the library answers,
-- `m` makes exactly `n` calls that pass the test `p`. The rules take a statement apart.
use rabbitmq_cxx.Base.{
  ℕ, suc, ◌+◌, ◌≡◌, refl, ◌∙◌, Bool, true, false, [], ◌∷◌, arith, if◌then◌else◌,
}
use rabbitmq_cxx.Amqp.{Call, Trace, Library}
use rabbitmq_cxx.Exceptions.{Exception}
use rabbitmq_cxx.Effect.Survives.{Survives}
use rabbitmq_cxx.Effect.{
  Effect, Outcome, done, throws, terminated, pure, throw, ◌>>=◌, perform, notify, choose, defer,
  try_catch, continue, handle,
}

unfoldable pub count : (Call → Bool) → Trace → ℕ
count p [] = 0
count p (c ∷ h) = if p c then suc (count p h) else count p h

pub record Adds {A : Type 0} (p : Call → Bool) (n : ℕ) (m : Effect A) : Type 0 where
  pub at : (lib : Library) (h : Trace) → count p (m lib h).1 ≡ count p h + n

module _ {A : Type 0} {p : Call → Bool} where
  pub Adds-pure : (a : A) → Adds p 0 (pure a)
  unfolding pure
  Adds-pure a = record { at = λ lib h. omega arith }

  pub Adds-throw : (e : Exception) → Adds p 0 (throw {A = A} e)
  unfolding throw
  Adds-throw e = record { at = λ lib h. omega arith }

  pub Adds-choose :
      {n : ℕ} (b : Bool) (m k : Effect A)
      → (b ≡ true → Adds p n m)
      → (b ≡ false → Adds p n k)
      → Adds p n (choose b m k)
  unfolding choose
  Adds-choose true m k am ak = am refl
  Adds-choose false m k am ak = ak refl

  -- A deferred function runs however the scope is left, unless the program was terminated.
  pub Adds-defer :
      {n : ℕ} (g : Effect Unit) (m : Effect A)
      → Adds p n g
      → Adds p 0 m
      → Survives m
      → Adds p n (defer g m)
  unfolding defer
  Adds-defer {n} g m ag am alive = record {
    at = λ lib h. ground (arith, am.at lib h, alive.at lib h, ag.at lib (m lib h).1);
  }

  pub Adds-defer_none :
      {n : ℕ} (g : Effect (Unit {0})) (m : Effect A)
      → Adds p 0 g
      → Adds p n m
      → Adds p n (defer g m)
  unfolding defer
  Adds-defer_none g m ag am = record {
    at = λ lib h. ground (arith, am.at lib h, ag.at lib (m lib h).1);
  }

  pub Adds-try_catch :
      {n : ℕ} (m : Effect A) (f : Exception → Effect A)
      → Adds p n m
      → ((e : Exception) → Adds p 0 (f e))
      → Adds p n (try_catch m f)
  unfolding try_catch
  Adds-try_catch m f am af = record {
    at = λ lib h. let r = m lib h in go lib r.0 r.1 ∙ am.at lib h;
  }
    where
      go : (lib : Library) (o : Outcome A) (t : Trace) → count p (handle o f lib t).1 ≡ count p t
      go lib (done a) t = refl
      go lib (throws e) t = omega (arith, (af e).at lib t)
      go lib terminated t = refl

pub Adds-perform : {p : Call → Bool} (c : Call) → p c ≡ false → Adds p 0 (perform c)
unfolding count perform
Adds-perform c e = record { at = λ lib h. ground arith }

pub Adds-notify : {p : Call → Bool} (c : Call) → p c ≡ false → Adds p 0 (notify c)
unfolding count notify
Adds-notify c e = record { at = λ lib h. ground arith }

pub Adds-bind :
    {A B : Type 0} {p : Call → Bool} {n : ℕ} (m : Effect A) (f : A → Effect B)
    → Adds p n m
    → ((a : A) → Adds p 0 (f a))
    → Adds p n (m >>= f)
unfolding ◌>>=◌
Adds-bind {A} {B} {p} m f am af = record {
  at = λ lib h. let r = m lib h in go lib r.0 r.1 ∙ am.at lib h;
}
  where
    go : (lib : Library) (o : Outcome A) (t : Trace) → count p (continue o f lib t).1 ≡ count p t
    go lib (done a) t = omega (arith, (af a).at lib t)
    go lib (throws e) t = refl
    go lib terminated t = refl

pub Adds-perform_one : {p : Call → Bool} (c : Call) → p c ≡ true → Adds p 1 (perform c)
unfolding count perform
Adds-perform_one c e = record { at = λ lib h. ground arith }

pub Adds-notify_one : {p : Call → Bool} (c : Call) → p c ≡ true → Adds p 1 (notify c)
unfolding count notify
Adds-notify_one c e = record { at = λ lib h. ground arith }

pub ruleset adds_rules = (
  Adds-pure, Adds-throw, Adds-choose, Adds-defer_none, Adds-try_catch, Adds-perform, Adds-notify,
  Adds-bind,
)
