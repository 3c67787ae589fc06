-- ===== src/Queue/Arguments.antt =====
-- The methods of include/rmqcxx/Queue.hpp that take table entries, over the memory that these are in. Each
-- is `none` if the call reads memory that is gone; fuel bounds how deep the values nest.
use rabbitmq_cxx.Base.{ℕ, ◌≡◌, Bool, List, [], ◌∷◌, Option, none, some, Bytes}
use rabbitmq_cxx.Amqp.{Entries}
use rabbitmq_cxx.Memory.{Heap, IsHeap}
use rabbitmq_cxx.FieldValue.{FieldValue}
use rabbitmq_cxx.TableEntry.{TableEntry}
use rabbitmq_cxx.Table.Building.{build_args, described}
use rabbitmq_cxx.Table.Arguments.{
  with_arguments, with_arguments-described, literal_entry, literal_entry-with_arguments,
}
use rabbitmq_cxx.Effect.{Effect}
use rabbitmq_cxx.Queue
use rabbitmq_cxx.Queue.{Queue}

module _ (fuel : ℕ) (q : Queue) where
  unfoldable pub declare_with :
      Bool → Bool → Bool → Bool → List TableEntry → Heap → Option (Effect ℕ) × Heap
  declare_with passive durable exclusive auto_delete args =
      with_arguments fuel args (Queue.declare q passive durable exclusive auto_delete)

  unfoldable pub bind_with :
      Bytes → Bytes → List TableEntry → Heap → Option (Effect (Unit {0})) × Heap
  bind_with exchange routing_key args = with_arguments fuel args (Queue.bind q exchange routing_key)

  unfoldable pub unbind_with :
      Bytes → Bytes → List TableEntry → Heap → Option (Effect (Unit {0})) × Heap
  unbind_with exchange routing_key args =
      with_arguments fuel args (Queue.unbind q exchange routing_key)

  unfoldable pub consume_with :
      Bytes → Bool → Bool → Bool → List TableEntry → Heap → Option (Effect Bytes) × Heap
  consume_with tag no_local no_ack exclusive args =
      with_arguments fuel args (Queue.consume q tag no_local no_ack exclusive)

  -- With entries whose values can be read, declaring, binding, unbinding and consuming pass on the
  -- keys and the values, in the order of the arguments.
  pub with_entries :
      (r : List (Bytes × FieldValue)) (h : Heap) (es : Entries)
      → IsHeap h
      → described fuel h r ≡ some es
      → (p d e a : Bool) (exchange routing_key tag : Bytes)
      → let (args, k) = build_args r h in
        ((declare_with p d e a args k).0 ≡ some (Queue.declare q p d e a es))
        × ((bind_with exchange routing_key args k).0 ≡ some (Queue.bind q exchange routing_key es))
        × ((unbind_with exchange routing_key args k).0
            ≡ some (Queue.unbind q exchange routing_key es))
        × ((consume_with tag p d e args k).0 ≡ some (Queue.consume q tag p d e es))
  unfolding declare_with bind_with unbind_with consume_with
  with_entries r h es fresh read p d e a exchange routing_key tag = (
    with_arguments-described fuel _ r h es fresh read,
    with_arguments-described fuel _ r h es fresh read,
    with_arguments-described fuel _ r h es fresh read,
    with_arguments-described fuel _ r h es fresh read,
  )

  -- An entry whose value is a literal that is not empty cannot be passed to any of them: they read
  -- memory that is gone.
  pub with_literal :
      (key : Bytes) (c : ℕ) (text : Bytes) (h : Heap) (p d e a : Bool)
      (exchange routing_key tag : Bytes)
      → let (arg, k) = literal_entry key (c ∷ text) h in
        ((declare_with p d e a (arg ∷ []) k).0 ≡ none)
        × ((bind_with exchange routing_key (arg ∷ []) k).0 ≡ none)
        × ((unbind_with exchange routing_key (arg ∷ []) k).0 ≡ none)
        × ((consume_with tag p d e (arg ∷ []) k).0 ≡ none)
  unfolding declare_with bind_with unbind_with consume_with
  with_literal key c text h p d e a exchange routing_key tag = (
    literal_entry-with_arguments key c text h fuel _,
    literal_entry-with_arguments key c text h fuel _,
    literal_entry-with_arguments key c text h fuel _,
    literal_entry-with_arguments key c text h fuel _,
  )
