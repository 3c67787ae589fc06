-- ===== src/Examples.antt =====
-- The loops of examples/consumer.cpp and examples/publisher.cpp: in each round, one of the methods that
-- consume, a line when nothing came, and a way out when an exception of the library was caught.
pub mod Consumer
pub mod Publisher
pub mod Rounds
pub mod Ends
pub mod Lost
use rabbitmq_cxx.Base.{ℕ, zero, suc, Bool, true, false, Bytes, ◌++◌, Option, none, some}
use rabbitmq_cxx.Base.Text.{text}
use rabbitmq_cxx.Amqp.{print, print_error}
use rabbitmq_cxx.Exceptions.{Exception, foreign, what}
use rabbitmq_cxx.Effect.{Effect, pure, throw, ◌>>=◌, ◌>>◌, notify, try_catch}

-- if (!connection.consume...(...)) { cout << missed << endl; }
unfoldable pub report : Bytes → Option Bool → Effect (Option Bool)
report missed none = pure none
report missed (some true) = pure (some true)
report missed (some false) = do notify (print missed); pure (some true)

-- catch (const Exception& ex) { cerr << "Failed: " << ex.what() << endl; break; }
unfoldable pub give_up : Exception → Effect (Option Bool)
give_up (foreign n) = throw (foreign n)
give_up e = do notify (print_error (text "Failed: " ++ what e)); pure (some false)

-- One round: whether it is followed by another one.
unfoldable pub attempt : Bytes → Effect (Option Bool) → Effect (Option Bool)
attempt missed consuming = try_catch (do r ← consuming; report missed r) give_up

unfoldable pub again : Option Bool → Effect (Option (Unit {0})) → Effect (Option (Unit {0}))
again none rest = pure none
again (some true) rest = rest
again (some false) rest = pure (some tt)

-- do { ... } while (true);
unfoldable pub forever : ℕ → Effect (Option Bool) → Effect (Option (Unit {0}))
forever zero round = pure none
forever (suc n) round = do r ← round; again r (forever n round)
