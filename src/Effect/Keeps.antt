-- ===== src/Effect/Keeps.antt =====
-- What holds of a library and the calls made so far, kept by a statement, however it ends. `Leads P Q m`:
-- from what `P` tells, `m` leads to what `Q` tells.
use rabbitmq_cxx.Base.{Bool, true, false, ◌≢◌, refl, ◌∷◌}
use rabbitmq_cxx.Amqp.{Call, Trace, Library}
use rabbitmq_cxx.Exceptions.{Exception}
use rabbitmq_cxx.Effect.{
  Effect, Outcome, done, throws, terminated, pure, throw, ◌>>=◌, perform, notify, choose, defer,
  try_catch, continue, handle, leave,
}
use rabbitmq_cxx.Effect.Survives.{Survives}

abbrev pub Account : Type 1
Account = Library → Trace → Type 0

pub record Leads {A : Type 0} (P Q : Account) (m : Effect A) : Type 0 where
  pub at : (lib : Library) (h : Trace) → P lib h → Q lib (m lib h).1

abbrev pub Keeps : {A : Type 0} → Account → Effect A → Type 0
Keeps P m = Leads P P m

module _ {P : Account} where
  pub Keeps-pure : {A : Type 0} (a : A) → Keeps P (pure a)
  unfolding pure
  Keeps-pure a = record { at = λ lib h k. k }

  pub Keeps-throw : {A : Type 0} (e : Exception) → Keeps P (throw {A = A} e)
  unfolding throw
  Keeps-throw e = record { at = λ lib h k. k }

  pub Keeps-perform :
      (c : Call) → ((lib : Library) (h : Trace) → P lib h → P lib (c ∷ h)) → Keeps P (perform c)
  unfolding perform
  Keeps-perform c k = record { at = k }

  pub Keeps-notify :
      (c : Call) → ((lib : Library) (h : Trace) → P lib h → P lib (c ∷ h)) → Keeps P (notify c)
  unfolding notify
  Keeps-notify c k = record { at = k }

  pub Keeps-choose :
      {A : Type 0} (b : Bool) (m k : Effect A) → Keeps P m → Keeps P k → Keeps P (choose b m k)
  unfolding choose
  Keeps-choose true m k km kk = km
  Keeps-choose false m k km kk = kk

  pub Keeps-bind :
      {A B : Type 0} (m : Effect A) (f : A → Effect B)
      → Keeps P m
      → ((a : A) → Keeps P (f a))
      → Keeps P (m >>= f)
  unfolding ◌>>=◌
  Keeps-bind {A} {B} m f km kf = record {
    at = λ lib h k. go lib (m lib h).0 (m lib h).1 (km.at lib h k);
  }
    where
      go : (lib : Library) (o : Outcome A) (t : Trace) → P lib t → P lib (continue o f lib t).1
      go lib (done a) t k = (kf a).at lib t k
      go lib (throws e) t k = k
      go lib terminated t k = k

  pub Keeps-try_catch :
      {A : Type 0} (m : Effect A) (f : Exception → Effect A)
      → Keeps P m
      → ((e : Exception) → Keeps P (f e))
      → Keeps P (try_catch m f)
  unfolding try_catch
  Keeps-try_catch {A} m f km kf = record {
    at = λ lib h k. go lib (m lib h).0 (m lib h).1 (km.at lib h k);
  }
    where
      go : (lib : Library) (o : Outcome A) (t : Trace) → P lib t → P lib (handle o f lib t).1
      go lib (done a) t k = k
      go lib (throws e) t k = (kf e).at lib t k
      go lib terminated t k = k

pub Keeps-defer :
    {A : Type 0} {P : Account} (g : Effect (Unit {0})) (m : Effect A)
    → Keeps P g
    → Keeps P m
    → Keeps P (defer g m)
unfolding defer
Keeps-defer {A} {P} g m kg km = record {
  at = λ lib h k. go lib (m lib h).0 (m lib h).1 (km.at lib h k);
}
  where
    go : (lib : Library) (o : Outcome A) (t : Trace) → P lib t → P lib (leave o g lib t).1
    go lib (done a) t k = kg.at lib t k
    go lib (throws e) t k = kg.at lib t k
    go lib terminated t k = k

-- What a statement leads to is kept by what follows it.
pub Leads-bind :
    {A B : Type 0} {P Q : Account} (m : Effect A) (f : A → Effect B)
    → Leads P Q m
    → ((a : A) → Keeps Q (f a))
    → Leads P Q (m >>= f)
unfolding ◌>>=◌
Leads-bind {A} {B} {P} {Q} m f lm kf = record {
  at = λ lib h k. go lib (m lib h).0 (m lib h).1 (lm.at lib h k);
}
  where
    go : (lib : Library) (o : Outcome A) (t : Trace) → Q lib t → Q lib (continue o f lib t).1
    go lib (done a) t k = (kf a).at lib t k
    go lib (throws e) t k = k
    go lib terminated t k = k

-- The deferred function settles what the statement leaves open.
pub Leads-defer :
    {A : Type 0} {P Q R : Account} (g : Effect (Unit {0})) (m : Effect A)
    → Leads Q R g
    → Leads P Q m
    → Survives m
    → Leads P R (defer g m)
unfolding defer
Leads-defer {A} {P} {Q} {R} g m lg lm alive = record {
  at = λ lib h k. go lib (m lib h).0 (m lib h).1 (alive.at lib h) (lm.at lib h k);
}
  where
    go :
        (lib : Library) (o : Outcome A) (t : Trace)
        → o ≢ terminated
        → Q lib t
        → R lib (leave o g lib t).1
    go lib (done a) t n k = lg.at lib t k
    go lib (throws e) t n k = lg.at lib t k
    go lib terminated t n k = absurd (n refl)

pub ruleset keeps_rules =
    (Keeps-pure, Keeps-throw, Keeps-choose, Keeps-bind, Keeps-try_catch, Keeps-defer)
