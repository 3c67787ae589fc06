-- ===== src/Effect/Writes.antt =====
-- A statement adds calls to those that were made before, and those that it adds are a word of a language.
-- The rules take a statement apart.
use mathlib.Core.List.{append_assoc}
use rabbitmq_cxx.Effect.Calls.{count}
use rabbitmq_cxx.Base.{
  suc, if◌then◌else◌, arith, ◌+◌, ◌≤◌, ◌≡◌, refl, Bool, true, false, [], ◌∷◌, ◌++◌,
}
use rabbitmq_cxx.Amqp.{Call, Trace, Library}
use rabbitmq_cxx.Exceptions.{Exception}
use rabbitmq_cxx.Effect.{
  Effect, Outcome, done, throws, terminated, pure, throw, ◌>>=◌, perform, notify, choose, defer,
  try_catch, continue, handle, leave,
}

-- A property of sequences of calls, the newest first, that one sequence after the other has if both do.
pub record Language : Type 1 where
  pub IsWord : Trace → Type 0
  pub nil : IsWord []
  pub append : (e d : Trace) → IsWord e → IsWord d → IsWord (e ++ d)

abbrev pub anything : Language
anything = record { IsWord = λ d. Unit {0}; nil = tt; append = λ e d p q. tt }

pub record Writes {A : Type 0} (K : Language) (m : Effect A) : Type 0 where
  pub at : (lib : Library) (h : Trace) → (d : Trace) × ((m lib h).1 ≡ d ++ h) × K.IsWord d

pub further : (h t u d e : Trace) → t ≡ d ++ h → u ≡ e ++ t → u ≡ (e ++ d) ++ h
further h t u d e p q = rw (q, p, append_assoc e d h) refl

pub count-append : (p : Call → Bool) (d h : Trace) → count p (d ++ h) ≡ count p d + count p h
unfolding count
count-append p [] h = omega arith
count-append p (c ∷ d) h = go (p c) (count-append p d h)
  where
    go :
        (b : Bool)
        → count p (d ++ h) ≡ count p d + count p h
        → (if b then suc (count p (d ++ h)) else count p (d ++ h))
          ≡ (if b then suc (count p d) else count p d) + count p h
    go true e = omega (arith, e)
    go false e = e

-- Calls are only added, of whatever kind.
pub count-Writes :
    {A : Type 0} (p : Call → Bool) (m : Effect A)
    → Writes anything m
    → (lib : Library) (h : Trace) → count p h ≤ count p (m lib h).1
count-Writes p m w lib h = let (d, e, u) = w.at lib h in rw e (omega (arith, count-append p d h))

pub count-bind :
    {A B : Type 0} (p : Call → Bool) (m : Effect A) (f : A → Effect B)
    → ((a : A) → Writes anything (f a))
    → (lib : Library) (h : Trace) → count p (m lib h).1 ≤ count p ((m >>= f) lib h).1
unfolding ◌>>=◌
count-bind {A} p m f w lib h = go (m lib h).0 (m lib h).1
  where
    go : (o : Outcome A) (t : Trace) → count p t ≤ count p (continue o f lib t).1
    go (done a) t = count-Writes p (f a) (w a) lib t
    go (throws x) t = omega arith
    go terminated t = omega arith

pub count-try_catch :
    {A : Type 0} (p : Call → Bool) (m : Effect A) (f : Exception → Effect A)
    → ((e : Exception) → Writes anything (f e))
    → (lib : Library) (h : Trace) → count p (m lib h).1 ≤ count p (try_catch m f lib h).1
unfolding try_catch
count-try_catch {A} p m f w lib h = go (m lib h).0 (m lib h).1
  where
    go : (o : Outcome A) (t : Trace) → count p t ≤ count p (handle o f lib t).1
    go (done a) t = omega arith
    go (throws x) t = count-Writes p (f x) (w x) lib t
    go terminated t = omega arith

pub Writes-anything : {A : Type 0} {K : Language} (m : Effect A) → Writes K m → Writes anything m
Writes-anything m w = record { at = λ lib h. let (d, e, k) = w.at lib h in (d, e, tt) }

module _ {K : Language} {A : Type 0} where
  pub Writes-pure : (a : A) → Writes K (pure a)
  unfolding pure
  Writes-pure a = record { at = λ lib h. ([], refl, K.nil) }

  pub Writes-throw : (e : Exception) → Writes K (throw {A = A} e)
  unfolding throw
  Writes-throw e = record { at = λ lib h. ([], refl, K.nil) }

  pub Writes-choose :
      (b : Bool) (m k : Effect A) → Writes K m → Writes K k → Writes K (choose b m k)
  unfolding choose
  Writes-choose true m k gm gk = gm
  Writes-choose false m k gm gk = gk

  pub Writes-defer :
      (g : Effect (Unit {0})) (m : Effect A) → Writes K g → Writes K m → Writes K (defer g m)
  unfolding defer
  Writes-defer g m gg gm = record { at = λ lib h. go lib h (m lib h).0 (m lib h).1 (gm.at lib h) }
    where
      go :
          (lib : Library) (h : Trace) (o : Outcome A) (t : Trace)
          → (d : Trace) × (t ≡ d ++ h) × K.IsWord d
          → (d : Trace) × ((leave o g lib t).1 ≡ d ++ h) × K.IsWord d
      go lib h (done a) t (d, p, k) =
          let (e, q, l) = gg.at lib t in (e ++ d, further h t (g lib t).1 d e p q, K.append e d l k)
      go lib h (throws x) t (d, p, k) =
          let (e, q, l) = gg.at lib t in (e ++ d, further h t (g lib t).1 d e p q, K.append e d l k)
      go lib h terminated t (d, p, k) = (d, p, k)

  pub Writes-try_catch :
      (m : Effect A) (f : Exception → Effect A)
      → Writes K m
      → ((e : Exception) → Writes K (f e))
      → Writes K (try_catch m f)
  unfolding try_catch
  Writes-try_catch m f gm gf = record {
    at = λ lib h. go lib h (m lib h).0 (m lib h).1 (gm.at lib h);
  }
    where
      go :
          (lib : Library) (h : Trace) (o : Outcome A) (t : Trace)
          → (d : Trace) × (t ≡ d ++ h) × K.IsWord d
          → (d : Trace) × ((handle o f lib t).1 ≡ d ++ h) × K.IsWord d
      go lib h (done a) t (d, p, k) = (d, p, k)
      go lib h (throws x) t (d, p, k) =
          let (e, q, l) = (gf x).at lib t in
          (e ++ d, further h t (f x lib t).1 d e p q, K.append e d l k)
      go lib h terminated t (d, p, k) = (d, p, k)

pub Writes-perform : {K : Language} (c : Call) → K.IsWord (c ∷ []) → Writes K (perform c)
unfolding perform
Writes-perform c w = record { at = λ lib h. (c ∷ [], refl, w) }

pub Writes-notify : {K : Language} (c : Call) → K.IsWord (c ∷ []) → Writes K (notify c)
unfolding notify
Writes-notify c w = record { at = λ lib h. (c ∷ [], refl, w) }

pub Writes-bind :
    {K : Language} {A B : Type 0} (m : Effect A) (f : A → Effect B)
    → Writes K m
    → ((a : A) → Writes K (f a))
    → Writes K (m >>= f)
unfolding ◌>>=◌
Writes-bind {K} {A} {B} m f gm gf = record {
  at = λ lib h. go lib h (m lib h).0 (m lib h).1 (gm.at lib h);
}
  where
    go :
        (lib : Library) (h : Trace) (o : Outcome A) (t : Trace)
        → (d : Trace) × (t ≡ d ++ h) × K.IsWord d
        → (d : Trace) × ((continue o f lib t).1 ≡ d ++ h) × K.IsWord d
    go lib h (done a) t (d, p, k) =
        let (e, q, l) = (gf a).at lib t in
        (e ++ d, further h t (f a lib t).1 d e p q, K.append e d l k)
    go lib h (throws x) t (d, p, k) = (d, p, k)
    go lib h terminated t (d, p, k) = (d, p, k)

pub ruleset writes_rules = (
  Writes-pure, Writes-throw, Writes-choose, Writes-defer, Writes-try_catch, Writes-perform,
  Writes-notify, Writes-bind,
)
