-- ===== src/Connection/Consume/Writes/Anything.antt =====
-- Consuming with include/rmqcxx/Connection.hpp makes its calls on top of those before, whatever they are.
use rabbitmq_cxx.Base.{◌≡◌, refl, Option, none, some}
use rabbitmq_cxx.Effect.{pure, throw}
use rabbitmq_cxx.Amqp.{Library, Trace}
use rabbitmq_cxx.Exceptions.{Exception}
use rabbitmq_cxx.Effect.Writes.{anything}
use rabbitmq_cxx.Connection.Writes.{anything-Replies}
use rabbitmq_cxx.Connection.Consume.{Delivery, finish}
use rabbitmq_cxx.Connection.Consume.Writes.{Utters}

pub finish-adds_nothing : (d : Delivery) (lib : Library) (t : Trace) → (finish d lib t).1 ≡ t
unfolding finish pure throw
finish-adds_nothing d lib t = go d.raises
  where
    go : (r : Option Exception) → (finish (record d { raises = r }) lib t).1 ≡ t
    go none = refl
    go (some x) = refl

-- Any calls at all.
pub anything-Utters : Utters anything
anything-Utters = record {
  replies = anything-Replies;
  clock = tt;
  consume = λ s tv. tt;
  wait = λ s tv. tt;
  read = λ s n. tt;
  release = λ s. tt;
  message = λ m. tt;
  envelope = λ e. tt;
}
