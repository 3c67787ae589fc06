-- ===== src/Connection/Moves.antt =====
-- Moving and destroying the objects of include/rmqcxx/Connection.hpp: who closes and frees.
use rabbitmq_cxx.Base.{ℕ, zero, suc, ◌≡◌, refl, Bool, true, false, List, [], ◌∷◌, ◌==◌}
use rabbitmq_cxx.Amqp.{Call, destroy_connection}
use rabbitmq_cxx.Effect.{Effect, pure, choose, ◌>>◌}
use rabbitmq_cxx.Effect.Calls.{Adds, Adds-pure, Adds-bind, Adds-notify}
use rabbitmq_cxx.Effect.Pays.{Adds-bind_last}
use rabbitmq_cxx.Connection.{Connection, destruct, delete_state, move_construct}
use rabbitmq_cxx.Connection.Lifecycle.{
  is_connection_close, is_destroy_connection, close-Adds_null, destruct-Returns,
}
use rabbitmq_cxx.Connection.Ownership.{destruct-frees, close-asks}

-- The objects after a number of moves, each from the object that the last one made.
unfoldable pub moves : ℕ → Connection → List Connection
moves zero c = c ∷ []
moves (suc n) c = (move_construct c).1 ∷ moves n (move_construct c).0

-- Objects that are destroyed one after the other.
unfoldable pub destroy_all : List Connection → Effect (Unit {0})
destroy_all [] = pure tt
destroy_all (c ∷ cs) = do destruct c; destroy_all cs

destruct_null : (p : Call → Bool) (c : Connection) → (c.state == 0) ≡ true → Adds p 0 (destruct c)
unfolding destruct delete_state choose
destruct_null p c null = Adds-bind _ _ (close-Adds_null p c null) (λ u. rw null (Adds-pure tt))

destruct-asks : (c : Connection) → (c.state == 0) ≡ false → Adds is_connection_close 1 (destruct c)
unfolding destruct delete_state choose
destruct-asks c live =
    Adds-bind _ _ (close-asks c live) (λ u. rw live (Adds-notify (destroy_connection c.state) refl))

-- Destroying the objects makes a kind of call once if destroying the owner does.
moves-once :
    (p : Call → Bool)
    → ((c : Connection) → (c.state == 0) ≡ false → Adds p 1 (destruct c))
    → (n : ℕ) (c : Connection) → (c.state == 0) ≡ false
    → Adds p 1 (destroy_all (moves n c))
unfolding moves destroy_all move_construct
moves-once p once zero c live = Adds-bind _ _ (once c live) (λ u. Adds-pure tt)
moves-once p once (suc n) c live =
    Adds-bind_last _ _ (destruct_null p (move_construct c).1 refl) (destruct-Returns _)
      (λ u. moves-once p once n c live)

-- However often a connection that is not null is moved on, the destruction of all the objects asks the
-- broker to close it exactly once, and destroys it exactly once.
pub moves-close_and_free_once :
    (n : ℕ) (c : Connection)
    → (c.state == 0) ≡ false
    → Adds is_connection_close 1 (destroy_all (moves n c))
      × Adds is_destroy_connection 1 (destroy_all (moves n c))
moves-close_and_free_once n c live = (
  moves-once is_connection_close destruct-asks n c live,
  moves-once is_destroy_connection (λ d. destruct-frees d) n c live,
)
