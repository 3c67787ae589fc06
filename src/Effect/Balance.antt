-- ===== src/Effect/Balance.antt =====
-- Statements that make as many calls of one kind as of another: what is acquired is released.
use rabbitmq_cxx.Base.{ℕ, ◌+◌, ◌≡◌, Bool, true, false, arith}
use rabbitmq_cxx.Amqp.{Call, Trace, Library}
use rabbitmq_cxx.Exceptions.{Exception}
use rabbitmq_cxx.Effect.{
  Effect, Outcome, done, throws, terminated, pure, throw, ◌>>=◌, choose, defer, continue,
}
use rabbitmq_cxx.Effect.Calls.{Adds, count}

pub record Balances {A : Type 0} (p q : Call → Bool) (m : Effect A) : Type 0 where
  pub at :
      (lib : Library) (h : Trace)
      → count p (m lib h).1 + count q h ≡ count q (m lib h).1 + count p h

module _ {A : Type 0} {p q : Call → Bool} where
  -- None of either.
  pub Balances-Adds : {n : ℕ} (m : Effect A) → Adds p n m → Adds q n m → Balances p q m
  Balances-Adds m am aq = record { at = λ lib h. omega (arith, am.at lib h, aq.at lib h) }

  pub Balances-throw : (x : Exception) → Balances p q (throw {A = A} x)
  unfolding throw
  Balances-throw x = record { at = λ lib h. omega arith }

  pub Balances-pure : (a : A) → Balances p q (pure a)
  unfolding pure
  Balances-pure a = record { at = λ lib h. omega arith }

  pub Balances-choose :
      (b : Bool) (m k : Effect A) → Balances p q m → Balances p q k → Balances p q (choose b m k)
  unfolding choose
  Balances-choose true m k bm bk = bm
  Balances-choose false m k bm bk = bk

  pub Balances-defer :
      (g : Effect (Unit {0})) (m : Effect A)
      → Balances p q g
      → Balances p q m
      → Balances p q (defer g m)
  unfolding defer
  Balances-defer g m bg bm = record {
    at = λ lib h. ground (arith, bm.at lib h, bg.at lib (m lib h).1);
  }

pub Balances-bind :
    {A B : Type 0} {p q : Call → Bool} (m : Effect A) (f : A → Effect B)
    → Balances p q m
    → ((a : A) → Balances p q (f a))
    → Balances p q (m >>= f)
unfolding ◌>>=◌
Balances-bind {A} {B} {p} {q} m f bm bf = record {
  at = λ lib h. let r = m lib h in go lib h r.0 r.1 (bm.at lib h);
}
  where
    go :
        (lib : Library) (h : Trace) (o : Outcome A) (t : Trace)
        → count p t + count q h ≡ count q t + count p h
        → let k = (continue o f lib t).1 in count p k + count q h ≡ count q k + count p h
    go lib h (done a) t e = omega (arith, e, (bf a).at lib t)
    go lib h (throws x) t e = e
    go lib h terminated t e = e

pub ruleset balances_rules =
    (Balances-throw, Balances-pure, Balances-choose, Balances-defer, Balances-bind)
