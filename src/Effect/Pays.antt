-- ===== src/Effect/Pays.antt =====
-- Statements that make one call of a kind exactly when they throw: what an object under
-- construction owes for what it has acquired.
use rabbitmq_cxx.Base.{ℕ, ◌+◌, ◌≡◌, ◌≢◌, refl, Bool, true, false, arith}
use rabbitmq_cxx.Amqp.{Call, Trace, Library}
use rabbitmq_cxx.Exceptions.{Exception}
use rabbitmq_cxx.Effect.{
  Effect, Outcome, done, throws, terminated, pure, throw, perform, ◌>>=◌, ◌>>◌, choose, try_catch,
  continue, handle,
}
use rabbitmq_cxx.Effect.Calls.{Adds, Adds-perform, Adds-pure, count}
use rabbitmq_cxx.Effect.Survives.{Survives, Returns, Returns-perform, Returns-pure}

abbrev pub owed : {A : Type 0} → Outcome A → ℕ
owed (done a) = 0
owed (throws e) = 1
owed terminated = 0

pub record Pays {A : Type 0} (p : Call → Bool) (m : Effect A) : Type 0 where
  pub at : (lib : Library) (h : Trace) → count p (m lib h).1 ≡ count p h + owed (m lib h).0

module _ {A : Type 0} {p : Call → Bool} where
  -- Nothing is owed for what cannot throw.
  pub Pays-Returns : (m : Effect A) → Returns m → Adds p 0 m → Pays p m
  Pays-Returns m r a = record { at = λ lib h. let (x, e) = r.at lib h in rw e (a.at lib h) }

  pub Pays-choose :
      (b : Bool) (m k : Effect A)
      → (b ≡ true → Pays p m)
      → (b ≡ false → Pays p k)
      → Pays p (choose b m k)
  unfolding choose
  Pays-choose true m k am ak = am refl
  Pays-choose false m k am ak = ak refl

  -- The call is made, and then an exception thrown.
  pub Pays-throw :
      (g : Effect (Unit {0})) (e : Exception)
      → Returns g
      → Adds p 1 g
      → Pays p (g >> throw {A = A} e)
  unfolding ◌>>=◌
  Pays-throw g e r a = record { at = λ lib h. let (x, q) = r.at lib h in rw q (a.at lib h) }

  pub Pays-try_catch :
      (m : Effect A) (g : Effect (Unit {0}))
      → Adds p 0 m
      → Returns g
      → Adds p 1 g
      → Pays p (try_catch m (λ e. g >> throw e))
  unfolding try_catch
  Pays-try_catch m g am r ag = record {
    at = λ lib h. let q = m lib h in go lib h q.0 q.1 (am.at lib h);
  }
    where
      go :
          (lib : Library) (h : Trace) (o : Outcome A) (t : Trace)
          → count p t ≡ count p h + 0
          → count p (handle o (λ e. g >> throw e) lib t).1
            ≡ count p h + owed (handle o (λ e. g >> throw e) lib t).0
      go lib h (done a) t e = e
      go lib h (throws x) t e = omega (arith, e, (Pays-throw g x r ag).at lib t)
      go lib h terminated t e = e

pub Pays-bind :
    {A B : Type 0} {p : Call → Bool} (m : Effect A) (f : A → Effect B)
    → Pays p m
    → ((a : A) → Pays p (f a))
    → Pays p (m >>= f)
unfolding ◌>>=◌
Pays-bind {A} {B} {p} m f am af = record {
  at = λ lib h. let r = m lib h in go lib h r.0 r.1 (am.at lib h);
}
  where
    go :
        (lib : Library) (h : Trace) (o : Outcome A) (t : Trace)
        → count p t ≡ count p h + owed o
        → count p (continue o f lib t).1 ≡ count p h + owed (continue o f lib t).0
    go lib h (done a) t e = omega (arith, (af a).at lib t)
    go lib h (throws x) t e = e
    go lib h terminated t e = e

-- Two statements that both make such calls, the first of which always yields.
pub Adds-bind_both :
    {A B : Type 0} {p : Call → Bool} {n k : ℕ} (m : Effect A) (f : A → Effect B)
    → Adds p n m
    → Returns m
    → ((a : A) → Adds p k (f a))
    → Adds p (n + k) (m >>= f)
unfolding ◌>>=◌
Adds-bind_both {p} m f am r af = record {
  at = λ lib h.
      let (x, e) = r.at lib h in rw e (omega (arith, am.at lib h, (af x).at lib (m lib h).1));
}

pub Adds-bind_last :
    {A B : Type 0} {p : Call → Bool} {n : ℕ} (m : Effect A) (f : A → Effect B)
    → Adds p 0 m
    → Returns m
    → ((a : A) → Adds p n (f a))
    → Adds p n (m >>= f)
Adds-bind_last m f am r af = record {
  at = λ lib h. omega (arith, (Adds-bind_both m f am r af).at lib h);
}

-- A statement that always yields, and what is known of its results.
pub Adds-bind_known :
    {A B : Type 0} {p : Call → Bool} {n : ℕ} (P : A → Type 0) (m : Effect A) (f : A → Effect B)
    → Adds p 0 m
    → ((lib : Library) (h : Trace) → (a : A) × ((m lib h).0 ≡ done a) × P a)
    → ((a : A) → P a → Adds p n (f a))
    → Adds p n (m >>= f)
unfolding ◌>>=◌
Adds-bind_known {p} P m f am known af = record {
  at = λ lib h.
      let (x, e, q) = known lib h in rw e (omega (arith, am.at lib h, (af x q).at lib (m lib h).1));
}

-- What was acquired is released after use, and it was paid for when acquiring failed.
pub Adds-bind_paid :
    {A B : Type 0} {p : Call → Bool} (P : A → Type 0) (m : Effect A) (f : A → Effect B)
    → Pays p m
    → Survives m
    → ((lib : Library) (h : Trace) (a : A) → (m lib h).0 ≡ done a → P a)
    → ((a : A) → P a → Adds p 1 (f a))
    → Adds p 1 (m >>= f)
unfolding ◌>>=◌
Adds-bind_paid {A} {B} {p} P m f pays survives post af = record {
  at =
      λ lib h. let r = m lib h in go lib h r.0 r.1 (post lib h) (survives.at lib h) (pays.at lib h);
}
  where
    go :
        (lib : Library) (h : Trace) (o : Outcome A) (t : Trace)
        → ((a : A) → o ≡ done a → P a)
        → o ≢ terminated
        → count p t ≡ count p h + owed o
        → count p (continue o f lib t).1 ≡ count p h + 1
    go lib h (done a) t ok alive e = omega (arith, (af a (ok a refl)).at lib t)
    go lib h (throws x) t ok alive e = e
    go lib h terminated t ok alive e = absurd (alive refl)

pub Pays-perform : {p : Call → Bool} (c : Call) → p c ≡ false → Pays p (perform c)
Pays-perform c e = Pays-Returns _ (Returns-perform c) (Adds-perform c e)

pub Pays-pure : {A : Type 0} {p : Call → Bool} (a : A) → Pays p (pure a)
Pays-pure a = Pays-Returns _ (Returns-pure a) (Adds-pure a)

pub ruleset pays_rules =
    (Pays-perform, Pays-pure, Pays-choose, Pays-throw, Pays-try_catch, Pays-bind)
