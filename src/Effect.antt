-- ===== src/Effect.antt =====
-- Statements that call the library and may throw: what they yield, and the calls that they make.
-- `defer` is the class `defer` of include/rmqcxx/util.hpp; `try_catch` and `no_throw` are the
-- language's `catch (...)` and `noexcept`.
pub mod Survives
pub mod Calls
pub mod Pays
pub mod Last
pub mod Balance
pub mod Writes
pub mod Blocks
pub mod Finishes
pub mod Guard
pub mod Keeps
pub mod Ledger
use rabbitmq_cxx.Base.{Bool, true, false, ◌∷◌}
use rabbitmq_cxx.Amqp.{Call, Answer, Trace, Library}
use rabbitmq_cxx.Exceptions.{Exception}

pub data Outcome (A : Type 0) : Type 0 where
  done : A → Outcome A
  throws : Exception → Outcome A
  -- std::terminate was called
  terminated : Outcome A

abbrev pub Effect : Type 0 → Type 0
Effect A = Library → Trace → Outcome A × Trace

unfoldable pub pure : {A : Type 0} → A → Effect A
pure a lib h = (done a, h)

unfoldable pub throw : {A : Type 0} → Exception → Effect A
throw e lib h = (throws e, h)

-- A call of the library: it is recorded, and answered.
unfoldable pub perform : (c : Call) → Effect (Answer c)
perform c lib h = (done (lib.answer h c), c ∷ h)

-- A call of a function that returns nothing.
unfoldable pub notify : Call → Effect (Unit {0})
notify c lib h = (done tt, c ∷ h)

-- `if (b) m else k`, a statement
unfoldable pub choose : {A : Type 0} → Bool → Effect A → Effect A → Effect A
choose true m k = m
choose false m k = k

abbrev pub continue : {A B : Type 0} → Outcome A → (A → Effect B) → Effect B
continue (done a) f lib h = f a lib h
continue (throws e) f lib h = (throws e, h)
continue terminated f lib h = (terminated, h)

infixl 5 ◌>>=◌ ◌>>◌
unfoldable pub ◌>>=◌ : {A B : Type 0} → Effect A → (A → Effect B) → Effect B
unfolding pure throw perform notify choose
◌>>=◌ m f lib h = let r = m lib h in continue r.0 f lib r.1

abbrev pub ◌>>◌ : {A B : Type 0} → Effect A → Effect B → Effect B
m >> k = m >>= λ _. k

-- What a scope ends with, once its deferred function has run: an exception of the function wins
-- over a result, and two exceptions at once end the program.
abbrev pub settle : {A : Type 0} → Outcome A → Outcome (Unit {0}) → Outcome A
settle (done a) (done u) = done a
settle (done a) (throws e) = throws e
settle (done a) terminated = terminated
settle (throws e) (done u) = throws e
settle (throws e) _ = terminated
settle terminated _ = terminated

-- A program that is terminated runs no destructor.
abbrev pub leave : {A : Type 0} → Outcome A → Effect (Unit {0}) → Effect A
leave terminated g lib h = (terminated, h)
leave o g lib h = let r = g lib h in (settle o r.0, r.1)

-- `defer d { g }; m`: `g` runs when the scope is left, also by an exception, and may throw itself.
unfoldable pub defer : {A : Type 0} → Effect (Unit {0}) → Effect A → Effect A
defer g m lib h = let r = m lib h in leave r.0 g lib r.1

abbrev pub handle : {A : Type 0} → Outcome A → (Exception → Effect A) → Effect A
handle (done a) f lib h = (done a, h)
handle (throws e) f lib h = f e lib h
handle terminated f lib h = (terminated, h)

-- try { m } catch (...) { f }
unfoldable pub try_catch : {A : Type 0} → Effect A → (Exception → Effect A) → Effect A
try_catch m f lib h = let r = m lib h in handle r.0 f lib r.1

abbrev pub guard_noexcept : {A : Type 0} → Outcome A → Outcome A
guard_noexcept (done a) = done a
guard_noexcept _ = terminated

-- A function declared noexcept: an exception that leaves it ends the program.
unfoldable pub no_throw : {A : Type 0} → Effect A → Effect A
no_throw m lib h = let r = m lib h in (guard_noexcept r.0, r.1)
