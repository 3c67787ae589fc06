-- ===== src/Effect/Blocks.antt =====
-- What a statement says: of the calls that it makes, those that pass a test. `Says p w m`: these are `w`,
-- the newest first.
use mathlib.Core.List.{append_assoc}
use rabbitmq_cxx.Base.{◌≡◌, refl, Bool, true, false, List, [], ◌∷◌, ◌++◌, ap, if◌then◌else◌}
use rabbitmq_cxx.Amqp.{Call, Trace, Library}
use rabbitmq_cxx.Effect.{Effect, Outcome, done, throws, terminated, defer, leave, perform}
use rabbitmq_cxx.Effect.Writes.{Language, Writes, further}

unfoldable pub keep : (Call → Bool) → Trace → Trace
keep p [] = []
keep p (c ∷ h) = if p c then c ∷ keep p h else keep p h

pub keep-append : (p : Call → Bool) (d h : Trace) → keep p (d ++ h) ≡ keep p d ++ keep p h
unfolding keep
keep-append p [] h = refl
keep-append p (c ∷ d) h = go (p c) (keep-append p d h)
  where
    go :
        (b : Bool)
        → keep p (d ++ h) ≡ keep p d ++ keep p h
        → (if b then c ∷ keep p (d ++ h) else keep p (d ++ h))
          ≡ (if b then c ∷ keep p d else keep p d) ++ keep p h
    go true e = ap (λ (t : Trace). c ∷ t) e
    go false e = e

-- The blocks one after the other, the newest first.
unfoldable pub flat : {B : Type 0} → (B → Trace) → List B → Trace
flat block [] = []
flat block (b ∷ bs) = block b ++ flat block bs

pub flat-append :
    {B : Type 0} (block : B → Trace) (bs cs : List B)
    → flat block (bs ++ cs) ≡ flat block bs ++ flat block cs
unfolding flat
flat-append block [] cs = refl
flat-append block (b ∷ bs) cs =
    rw (flat-append block bs cs, append_assoc (block b) (flat block bs) (flat block cs)) refl

pub keep-nil : (p : Call → Bool) → keep p [] ≡ []
unfolding keep
keep-nil p = refl

pub flat-nil : {B : Type 0} (block : B → Trace) → flat block [] ≡ []
unfolding flat
flat-nil block = refl

-- Nothing that passes the test.
abbrev pub silence : (Call → Bool) → Language
silence p = record {
  IsWord = λ d. keep p d ≡ [];
  nil = keep-nil p;
  append = λ e d q r. rw (keep-append p e d, q, r) refl;
}

pub quiet : (p : Call → Bool) (c : Call) → p c ≡ false → keep p (c ∷ []) ≡ []
unfolding keep
quiet p c e = rw e refl

pub record Says {A : Type 0} (p : Call → Bool) (w : Trace) (m : Effect A) : Type 0 where
  pub at : (lib : Library) (h : Trace) → (d : Trace) × ((m lib h).1 ≡ d ++ h) × (keep p d ≡ w)

module _ {p : Call → Bool} {w : Trace} where
  pub Says-perform : (c : Call) → keep p (c ∷ []) ≡ w → Says p w (perform c)
  unfolding perform
  Says-perform c e = record { at = λ lib h. (c ∷ [], refl, e) }

  pub Says-defer :
      {A : Type 0} (g : Effect (Unit {0})) (m : Effect A)
      → Writes (silence p) g
      → Says p w m
      → Says p w (defer g m)
  unfolding defer
  Says-defer {A} g m gg gm = record { at = λ lib h. go lib h (m lib h).0 (m lib h).1 (gm.at lib h) }
    where
      after :
          (lib : Library) (h t : Trace)
          → (d : Trace) × (t ≡ d ++ h) × (keep p d ≡ w)
          → (d : Trace) × ((g lib t).1 ≡ d ++ h) × (keep p d ≡ w)
      after lib h t (d, q, k) =
          let (e, r, l) = gg.at lib t in
          (e ++ d, further h t (g lib t).1 d e q r, rw (keep-append p e d, l) k)

      go :
          (lib : Library) (h : Trace) (o : Outcome A) (t : Trace)
          → (d : Trace) × (t ≡ d ++ h) × (keep p d ≡ w)
          → (d : Trace) × ((leave o g lib t).1 ≡ d ++ h) × (keep p d ≡ w)
      go lib h (done a) t s = after lib h t s
      go lib h (throws x) t s = after lib h t s
      go lib h terminated t s = s
