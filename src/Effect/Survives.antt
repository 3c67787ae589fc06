-- ===== src/Effect/Survives.antt =====
-- Statements that never end the program by std::terminate, with rules that take one apart.
use rabbitmq_cxx.Base.{◌≡◌, ◌≢◌, refl, Bool, true, false, arith}
use rabbitmq_cxx.Amqp.{Call, Trace, Library}
use rabbitmq_cxx.Exceptions.{Exception}
use rabbitmq_cxx.Effect.{
  Effect, Outcome, done, throws, terminated, pure, throw, ◌>>=◌, perform, notify, choose, defer,
  try_catch, continue, handle,
}

pub record Survives {A : Type 0} (m : Effect A) : Type 0 where
  pub at : (lib : Library) (h : Trace) → (m lib h).0 ≢ terminated

-- Statements that yield a result, whatever the library does.
pub record Returns {A : Type 0} (m : Effect A) : Type 0 where
  pub at : (lib : Library) (h : Trace) → (a : A) × ((m lib h).0 ≡ done a)

module _ {A : Type 0} where
  pub Survives-pure : (a : A) → Survives (pure a)
  unfolding pure
  Survives-pure a = record { at = λ lib h e. cc }

  pub Survives-throw : (e : Exception) → Survives (throw {A = A} e)
  unfolding throw
  Survives-throw e = record { at = λ lib h p. cc }

  pub Survives-choose :
      (b : Bool) (m k : Effect A)
      → (b ≡ true → Survives m)
      → (b ≡ false → Survives k)
      → Survives (choose b m k)
  unfolding choose
  Survives-choose true m k sm sk = sm refl
  Survives-choose false m k sm sk = sk refl

  pub Survives-try_catch :
      (m : Effect A) (f : Exception → Effect A)
      → Survives m
      → ((e : Exception) → Survives (f e))
      → Survives (try_catch m f)
  unfolding try_catch
  Survives-try_catch m f sm sf = record {
    at = λ lib h. let r = m lib h in go lib r.0 r.1 (sm.at lib h);
  }
    where
      go :
          (lib : Library) (o : Outcome A) (t : Trace)
          → o ≢ terminated
          → (handle o f lib t).0 ≢ terminated
      go lib (done a) t h = λ e. cc
      go lib (throws x) t h = (sf x).at lib t
      go lib terminated t h = h

  pub Survives-defer :
      (g : Effect (Unit {0})) (m : Effect A) → Returns g → Survives m → Survives (defer g m)
  unfolding defer
  Survives-defer g m rg sm = record {
    at = λ lib h e. ground (arith, sm.at lib h, (rg.at lib (m lib h).1).1);
  }

-- The deferred function may throw when the statement before it does not.
pub Survives-defer_throwing :
    {A : Type 0} (g : Effect (Unit {0})) (m : Effect A)
    → Survives g
    → Returns m
    → Survives (defer g m)
unfolding defer
Survives-defer_throwing g m sg rm = record {
  at = λ lib h e. ground (arith, sg.at lib (m lib h).1, (rm.at lib h).1);
}

pub Survives-perform : (c : Call) → Survives (perform c)
unfolding perform
Survives-perform c = record { at = λ lib h e. cc }

pub Survives-notify : (c : Call) → Survives (notify c)
unfolding notify
Survives-notify c = record { at = λ lib h e. cc }

pub Returns-notify : (c : Call) → Returns (notify c)
unfolding notify
Returns-notify c = record { at = λ lib h. (tt, refl) }

pub Returns-perform : (c : Call) → Returns (perform c)
unfolding perform
Returns-perform c = record { at = λ lib h. (lib.answer h c, refl) }

pub Survives-bind :
    {A B : Type 0} (m : Effect A) (f : A → Effect B)
    → Survives m
    → ((a : A) → Survives (f a))
    → Survives (m >>= f)
unfolding ◌>>=◌
Survives-bind {A} {B} m f sm sf = record {
  at = λ lib h. let r = m lib h in go lib r.0 r.1 (sm.at lib h);
}
  where
    go :
        (lib : Library) (o : Outcome A) (t : Trace)
        → o ≢ terminated
        → (continue o f lib t).0 ≢ terminated
    go lib (done a) t h = (sf a).at lib t
    go lib (throws x) t h = λ e. cc
    go lib terminated t h = λ e. h refl

pub Survives-Returns : {A : Type 0} (m : Effect A) → Returns m → Survives m
Survives-Returns m r = record { at = λ lib h e. ground (arith, (r.at lib h).1) }

module _ {A : Type 0} where
  pub Returns-pure : (a : A) → Returns (pure a)
  unfolding pure
  Returns-pure a = record { at = λ lib h. (a, refl) }

  pub Returns-choose :
      (b : Bool) (m k : Effect A)
      → (b ≡ true → Returns m)
      → (b ≡ false → Returns k)
      → Returns (choose b m k)
  unfolding choose
  Returns-choose true m k rm rk = rm refl
  Returns-choose false m k rm rk = rk refl

  pub Returns-try_catch :
      (m : Effect A) (f : Exception → Effect A)
      → Survives m
      → ((e : Exception) → Returns (f e))
      → Returns (try_catch m f)
  unfolding try_catch
  Returns-try_catch m f sm rf = record {
    at = λ lib h. let r = m lib h in go lib r.0 r.1 (sm.at lib h);
  }
    where
      go :
          (lib : Library) (o : Outcome A) (t : Trace)
          → o ≢ terminated
          → (a : A) × ((handle o f lib t).0 ≡ done a)
      go lib (done a) t h = (a, refl)
      go lib (throws x) t h = (rf x).at lib t
      go lib terminated t h = absurd (h refl)

pub Returns-bind :
    {A B : Type 0} (m : Effect A) (f : A → Effect B)
    → Returns m
    → ((a : A) → Returns (f a))
    → Returns (m >>= f)
unfolding ◌>>=◌
Returns-bind m f rm rf = record {
  at = λ lib h. let (a, e) = rm.at lib h in let (b, e') = (rf a).at lib (m lib h).1 in (b, rw e e');
}

pub ruleset survives_rules = (
  Survives-pure, Survives-throw, Survives-choose, Survives-try_catch, Survives-defer,
  Survives-defer_throwing, Survives-perform, Survives-bind, Returns-perform, Returns-pure,
  Returns-choose, Survives-notify, Returns-notify, Returns-try_catch, Returns-bind,
)
