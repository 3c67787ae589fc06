-- ===== src/Channel/Lifecycle.antt =====
-- Moving and destroying the objects of include/rmqcxx/Channel.hpp: who closes the channel.
use rabbitmq_cxx.Base.{ℕ, zero, suc, ◌≡◌, refl, Bool, true, false, List, [], ◌∷◌}
use rabbitmq_cxx.Base.Text.{text}
use rabbitmq_cxx.Amqp.{Call, channel_close}
use rabbitmq_cxx.Effect.{Effect, pure, choose, ◌>>◌}
use rabbitmq_cxx.Effect.Calls.{
  Adds, Adds-pure, Adds-bind, Adds-try_catch, Adds-defer_none, Adds-perform_one,
}
use rabbitmq_cxx.Effect.Pays.{Adds-bind_last, Adds-bind_both}
use rabbitmq_cxx.Effect.Survives.{Returns, survives_rules, Returns-perform}
use rabbitmq_cxx.Connection.{rpc_public, reply_success}
use rabbitmq_cxx.Connection.Replies.{IsOther, rpc-Survives}
use rabbitmq_cxx.Connection.Lifecycle.{conclude-Adds}
use rabbitmq_cxx.Channel.{Channel, destruct, move_construct}

abbrev pub is_channel_close : Call → Bool
is_channel_close (channel_close s n) = true
is_channel_close _ = false

other : IsOther is_channel_close
other = record { description = λ s. refl; name = λ m. refl }

-- The destructor of a channel neither throws nor ends the program.
pub destruct_channel-Returns : (c : Channel) → Returns (destruct c)
unfolding destruct rpc_public
destruct_channel-Returns c =
    search
      (survives_rules, rpc-Survives, Returns-perform (channel_close c.connection.state c.channel))
      depth 8

pub destruct_live : (c : Channel) → c.moved ≡ false → Adds is_channel_close 1 (destruct c)
unfolding destruct choose rpc_public rabbitmq_cxx.Connection.rpc
destruct_live c live = rw live (
    Adds-try_catch _ _
      (Adds-bind _ _
        (Adds-defer_none _ _
          (conclude-Adds is_channel_close other c.connection true (text "") refl refl)
          (Adds-perform_one (channel_close c.connection.state c.channel) refl))
        (λ r. Adds-pure tt))
      (λ x. Adds-pure tt))

destruct_moved : (c : Channel) → c.moved ≡ true → Adds is_channel_close 0 (destruct c)
unfolding destruct choose
destruct_moved c gone = rw gone (Adds-pure tt)

-- Objects that are destroyed one after the other.
unfoldable pub destroy_all : List Channel → Effect (Unit {0})
destroy_all [] = pure tt
destroy_all (c ∷ cs) = do destruct c; destroy_all cs

-- The objects after `n` moves, each from the object that the last one made.
unfoldable pub moves : ℕ → Channel → List Channel
moves zero c = c ∷ []
moves (suc n) c = (move_construct c).1 ∷ moves n (move_construct c).0

-- However often a channel that was not moved from is moved on, the destruction of all the objects
-- asks the broker to close it exactly once.
pub moves-close_once :
    (n : ℕ) (c : Channel) → c.moved ≡ false → Adds is_channel_close 1 (destroy_all (moves n c))
unfolding moves destroy_all move_construct
moves-close_once zero c live = Adds-bind _ _ (destruct_live c live) (λ u. Adds-pure tt)
moves-close_once (suc n) c live =
    Adds-bind_last _ _ (destruct_moved _ refl) (destruct_channel-Returns _)
      (λ u. moves-close_once n (record c { moved = false }) refl)

-- The objects after two moves from the same object: `b` takes the channel over, and then `d` is
-- made from what is left of it.
unfoldable pub moved_twice : Channel → List Channel
moved_twice c =
    let (b, gone) = move_construct c in let (d, rest) = move_construct gone in d ∷ b ∷ rest ∷ []

-- After two moves from one object, the destruction of the objects asks the broker to close the
-- channel twice.
pub moved_twice-closes_twice : (c : Channel) → Adds is_channel_close 2 (destroy_all (moved_twice c))
unfolding moved_twice destroy_all move_construct
moved_twice-closes_twice c =
    Adds-bind_both _ _ (destruct_live _ refl) (destruct_channel-Returns _) λ u.
      Adds-bind_both _ _ (destruct_live _ refl) (destruct_channel-Returns _)
        λ v. Adds-bind _ _ (destruct_moved _ refl) (λ w. Adds-pure tt)
