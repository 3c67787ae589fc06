-- ===== src/Exchange/Arguments.antt =====
-- The methods of include/rmqcxx/Exchange.hpp that take table entries, over the memory that these are in.
-- Each is `none` if the call reads memory that is gone; fuel bounds how deep the values nest.
use rabbitmq_cxx.Base.{ℕ, ◌≡◌, Bool, List, Option, some, Bytes}
use rabbitmq_cxx.Amqp.{Entries}
use rabbitmq_cxx.Memory.{Heap, IsHeap}
use rabbitmq_cxx.FieldValue.{FieldValue}
use rabbitmq_cxx.TableEntry.{TableEntry}
use rabbitmq_cxx.Table.Building.{build_args, described}
use rabbitmq_cxx.Table.Arguments.{with_arguments, with_arguments-described}
use rabbitmq_cxx.Effect.{Effect}
use rabbitmq_cxx.Exchange
use rabbitmq_cxx.Exchange.{Exchange}

module _ (fuel : ℕ) (x : Exchange) where
  unfoldable pub declare_with :
      Bytes → Bool → Bool → Bool → List TableEntry → Heap → Option (Effect (Unit {0})) × Heap
  declare_with type passive durable auto_delete args =
      with_arguments fuel args (Exchange.declare x type passive durable auto_delete)

  unfoldable pub bind_with :
      Bytes → Bytes → List TableEntry → Heap → Option (Effect (Unit {0})) × Heap
  bind_with src routing_key args = with_arguments fuel args (Exchange.bind x src routing_key)

  unfoldable pub unbind_with :
      Bytes → Bytes → List TableEntry → Heap → Option (Effect (Unit {0})) × Heap
  unbind_with src routing_key args = with_arguments fuel args (Exchange.unbind x src routing_key)

  -- With entries whose values can be read, declaring, binding and unbinding an exchange pass on the
  -- keys and the values, in the order of the arguments.
  pub exchange_with_entries :
      (r : List (Bytes × FieldValue)) (h : Heap) (es : Entries)
      → IsHeap h
      → described fuel h r ≡ some es
      → (type src routing_key : Bytes) (p d a : Bool)
      → let (args, k) = build_args r h in
        ((declare_with type p d a args k).0 ≡ some (Exchange.declare x type p d a es))
        × ((bind_with src routing_key args k).0 ≡ some (Exchange.bind x src routing_key es))
        × ((unbind_with src routing_key args k).0 ≡ some (Exchange.unbind x src routing_key es))
  unfolding declare_with bind_with unbind_with
  exchange_with_entries r h es fresh read type src routing_key p d a = (
    with_arguments-described fuel _ r h es fresh read,
    with_arguments-described fuel _ r h es fresh read,
    with_arguments-described fuel _ r h es fresh read,
  )
