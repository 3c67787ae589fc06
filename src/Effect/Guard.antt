-- ===== src/Effect/Guard.antt =====
-- A statement that is guarded by a deferred function, cut off from what follows it in the scope: the
-- function runs only when the statement is left otherwise than by its end.
use rabbitmq_cxx.Base.{ℕ, ◌≡◌, ◌≢◌, refl, sym, ap, ◌∙◌, Bool, arith}
use rabbitmq_cxx.Amqp.{Call, Trace, Library}
use rabbitmq_cxx.Exceptions.{Exception}
use rabbitmq_cxx.Effect.{
  Effect, Outcome, done, throws, terminated, pure, ◌>>=◌, defer, continue, leave, settle,
}
use rabbitmq_cxx.Effect.Calls.{count, Adds}

abbrev unwind : {A : Type 0} → Outcome A → Effect (Unit {0}) → Effect A
unwind (done a) g lib h = (done a, h)
unwind o g lib h = leave o g lib h

unfoldable pub guard : {A : Type 0} → Effect (Unit {0}) → Effect A → Effect A
guard g m lib h = let r = m lib h in unwind r.0 g lib r.1

-- Statements that do the same.
pub record Same {A : Type 0} (m k : Effect A) : Type 0 where
  pub at : (lib : Library) (h : Trace) → m lib h ≡ k lib h

module _ {A : Type 0} where
  pub Same-refl : (m : Effect A) → Same m m
  Same-refl m = record { at = λ lib h. refl }

  pub Same-trans : (m k l : Effect A) → Same m k → Same k l → Same m l
  Same-trans m k l p q = record { at = λ lib h. p.at lib h ∙ q.at lib h }

  pub Same-sym : (m k : Effect A) → Same m k → Same k m
  Same-sym m k p = record { at = λ lib h. sym (p.at lib h) }

  pub Same-defer :
      (g : Effect (Unit {0})) (m k : Effect A) → Same m k → Same (defer g m) (defer g k)
  unfolding defer
  Same-defer g m k p = record { at = λ lib h. rw (p.at lib h) refl }

  pub Same-bind :
      {B : Type 0} (m : Effect A) (f k : A → Effect B)
      → ((a : A) → Same (f a) (k a))
      → Same (m >>= f) (m >>= k)
  unfolding ◌>>=◌
  Same-bind {B} m f k p = record { at = λ lib h. let r = m lib h in go lib r.0 r.1 }
    where
      go : (lib : Library) (o : Outcome A) (t : Trace) → continue o f lib t ≡ continue o k lib t
      go lib (done a) t = (p a).at lib t
      go lib (throws e) t = refl
      go lib terminated t = refl

  pub Same-assoc :
      {B C : Type 0} (m : Effect A) (f : A → Effect B) (k : B → Effect C)
      → Same (m >>= f >>= k) (m >>= λ a. f a >>= k)
  unfolding ◌>>=◌
  Same-assoc {B} {C} m f k = record { at = λ lib h. let r = m lib h in go lib r.0 r.1 }
    where
      go :
          (lib : Library) (o : Outcome A) (t : Trace)
          → let r = continue o f lib t in
            continue r.0 k lib r.1
            ≡ continue o (λ a. λ l s. let q = f a l s in continue q.0 k l q.1) lib t
      go lib (done a) t = refl
      go lib (throws e) t = refl
      go lib terminated t = refl

  pub Same-pure : {B : Type 0} (a : A) (f : A → Effect B) → Same (pure a >>= f) (f a)
  unfolding ◌>>=◌ pure
  Same-pure a f = record { at = λ lib h. refl }

  -- The first statement of a scope, guarded, and then the others in it.
  pub Same-cut :
      {B : Type 0} (g : Effect (Unit {0})) (m : Effect A) (f : A → Effect B)
      → Same (defer g (m >>= f)) (guard g m >>= λ a. defer g (f a))
  unfolding ◌>>=◌ defer guard
  Same-cut {B} g m f = record { at = λ lib h. let r = m lib h in go lib r.0 r.1 }
    where
      thrown :
          (lib : Library) (e : Exception) (u : Outcome (Unit {0})) (t : Trace)
          → (settle (throws e) u, t)
            ≡ continue
                (settle (throws e) u)
                (λ a. λ l s. let q = f a l s in leave q.0 g l q.1)
                lib
                t
      thrown lib e (done u) t = refl
      thrown lib e (throws x) t = refl
      thrown lib e terminated t = refl

      go :
          (lib : Library) (o : Outcome A) (t : Trace)
          → let r = continue o f lib t in
            let u = unwind o g lib t in
            leave r.0 g lib r.1
            ≡ continue u.0 (λ a. λ l s. let q = f a l s in leave q.0 g l q.1) lib u.1
      go lib (done a) t = refl
      go lib (throws e) t = let r = g lib t in thrown lib e r.0 r.1
      go lib terminated t = refl

  pub count-guard :
      {p : Call → Bool} (g : Effect (Unit {0})) (m : Effect A) (lib : Library) (h : Trace)
      → Adds p 0 g
      → count p (guard g m lib h).1 ≡ count p (m lib h).1
  unfolding guard
  count-guard {p} g m lib h ag = let r = m lib h in go r.0 r.1
    where
      go : (o : Outcome A) (t : Trace) → count p (unwind o g lib t).1 ≡ count p t
      go (done a) t = refl
      go (throws e) t = omega (arith, ag.at lib t)
      go terminated t = refl

  pub Adds-guard :
      {p : Call → Bool} {n : ℕ} (g : Effect (Unit {0})) (m : Effect A)
      → Adds p 0 g
      → Adds p n m
      → Adds p n (guard g m)
  Adds-guard g m ag am = record { at = λ lib h. count-guard g m lib h ag ∙ am.at lib h }

  -- A guarded statement that ends has made no other calls.
  pub guard-done :
      (g : Effect (Unit {0})) (m : Effect A) (lib : Library) (h : Trace) (a : A) (t : Trace)
      → guard g m lib h ≡ (done a, t)
      → m lib h ≡ (done a, t)
  unfolding guard
  guard-done g m lib h a t e = let r = m lib h in go r.0 r.1 e
    where
      settled : (x : Exception) (u : Outcome (Unit {0})) → settle (throws x) u ≢ done a
      settled x (done u) = λ q. cc
      settled x (throws y) = λ q. cc
      settled x terminated = λ q. cc

      go :
          (o : Outcome A) (s : Trace)
          → unwind o g lib s ≡ (done a, t)
          → ◌≡◌ {A = Outcome A × Trace} (o, s) (done a, t)
      go (done b) s q = q
      go (throws x) s q = absurd (settled x (g lib s).0 (ap (λ (r : Outcome A × Trace). r.0) q))
      go terminated s q = cc

  -- One that throws has thrown the same.
  pub guard-throws :
      (g : Effect (Unit {0})) (m : Effect A) (lib : Library) (h : Trace) (x : Exception) (t : Trace)
      → guard g m lib h ≡ (throws x, t)
      → (m lib h).0 ≡ throws x
  unfolding guard
  guard-throws g m lib h x t e = let r = m lib h in go r.0 r.1 e
    where
      settled :
          (y : Exception) (u : Outcome (Unit {0}))
          → settle {A = A} (throws y) u ≡ throws x
          → ◌≡◌ {A = Outcome A} (throws y) (throws x)
      settled y (done u) q = q
      settled y (throws z) q = cc
      settled y terminated q = cc

      go : (o : Outcome A) (s : Trace) → unwind o g lib s ≡ (throws x, t) → o ≡ throws x
      go (done b) s q = cc
      go (throws y) s q = settled y (g lib s).0 (ap (λ (r : Outcome A × Trace). r.0) q)
      go terminated s q = cc
