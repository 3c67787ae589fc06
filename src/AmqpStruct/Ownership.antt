-- ===== src/AmqpStruct/Ownership.antt =====
-- What the objects of include/rmqcxx/AMQPStruct.hpp own after a move, shown on envelopes.
use rabbitmq_cxx.Base.{◌≡◌, refl, ◌∷◌, false}
use rabbitmq_cxx.Amqp.{Trace, Library, RawEnvelope, destroy_envelope}
use rabbitmq_cxx.Effect.{Effect, done, choose, notify, pure, ◌>>◌, ◌>>=◌}
use rabbitmq_cxx.AmqpStruct.{AmqpStruct, move_construct, move_assign, destruct_envelope}

-- Two objects that are destroyed one after the other.
unfoldable pub destroy_both : AmqpStruct RawEnvelope × AmqpStruct RawEnvelope → Effect (Unit {0})
destroy_both (a, b) = do destruct_envelope a; destruct_envelope b

-- Moving the owner of an envelope to a new object and destroying both has the outcome and makes the
-- calls of destroying the owner.
move_construct-owns_once :
    (e : AmqpStruct RawEnvelope) (lib : Library) (h : Trace)
    → e.moved ≡ false
    → destroy_both (move_construct e) lib h ≡ destruct_envelope e lib h
unfolding destroy_both move_construct destruct_envelope choose notify pure ◌>>=◌
move_construct-owns_once e lib h own = rw own refl

-- After a move assignment the destruction of both objects destroys the memory of the second one,
-- and nothing else, whether or not it was the owner, and whatever the first one owned.
pub move_assign_lem :
    (self other : AmqpStruct RawEnvelope) (lib : Library) (h : Trace)
    → destroy_both (move_assign self other) lib h ≡ (done tt, destroy_envelope other.memory ∷ h)
unfolding destroy_both move_assign destruct_envelope choose notify pure ◌>>=◌
move_assign_lem self other lib h = refl
