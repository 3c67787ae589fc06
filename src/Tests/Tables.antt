-- ===== src/Tests/Tables.antt =====
-- The theorems on tables and values at concrete inputs.
use rabbitmq_cxx.Base.{
  ℕ, ◌<◌, ◌≡◌, ◌≢◌, refl, Bool, true, false, List, [], ◌∷◌, Option, none, some, map, arith, Bytes,
}
use rabbitmq_cxx.Base.Int.{pos}
use rabbitmq_cxx.Amqp.{Kind, Value, Entries}
use rabbitmq_cxx.Memory.{Heap, IsHeap, RawEntry, RawBytes, Block, entries}
use rabbitmq_cxx.FieldValue.{FieldValue, from_bool, from_int32}
use rabbitmq_cxx.FieldValue.Reading.{read_value, read_member}
use rabbitmq_cxx.Table.{
  Table, construct, copy_construct, move_construct, copy_assign, move_assign, destruct,
}
use rabbitmq_cxx.Table.Ownership.{Owns, IsCopied, copies-Owns, move_construct-Owns}
use rabbitmq_cxx.Table.Building.{build_args, described}
use rabbitmq_cxx.Table.Arguments.{literal_entry}
use rabbitmq_cxx.Queue
use rabbitmq_cxx.Queue.Arguments.{
  declare_with, bind_with, unbind_with, consume_with, with_entries, with_literal,
}
use rabbitmq_cxx.Tests.Samples.{queue}

abbrev no_memory : Heap
no_memory = record { next = 1; cell = λ p. none }

no_memory-IsHeap : IsHeap no_memory
no_memory-IsHeap = record { unused = λ p le. refl; null = refl; some_next = omega arith }

abbrev one_entry : List RawEntry
one_entry =
    record {
      key = record { len = 0; bytes = 0 };
      value = record { kind = Kind.boolean; value = rabbitmq_cxx.Memory.Member.boolean true };
    }
    ∷ []

-- Two tables, with one entry in block 1 and none in block 2.
abbrev cells : ℕ → Option Block
cells ℕ.zero = none
cells (ℕ.suc ℕ.zero) = some (entries one_entry)
cells (ℕ.suc (ℕ.suc ℕ.zero)) = some (entries [])
cells _ = none

abbrev memory : Heap
memory = record { next = 3; cell = cells }

cells_unused : (p : ℕ) → rabbitmq_cxx.Base.◌≤◌ 3 p → cells p ≡ none
cells_unused ℕ.zero le = refl
cells_unused (ℕ.suc ℕ.zero) le = absurd (omega arith)
cells_unused (ℕ.suc (ℕ.suc ℕ.zero)) le = absurd (omega arith)
cells_unused (ℕ.suc (ℕ.suc (ℕ.suc p))) le = refl

memory-IsHeap : IsHeap memory
memory-IsHeap = record { unused = cells_unused; null = refl; some_next = omega arith }

abbrev table_at : ℕ → ℕ → Table
table_at p n = record {
  cache = record { buffer = p; size = n };
  value = record { num_entries = n; entries = p };
}

abbrev full : Table
full = table_at 1 1

abbrev vacant : Table
vacant = table_at 2 0

full-Owns : Owns memory full one_entry
unfolding rabbitmq_cxx.Table.view
full-Owns = record { held = refl; counted = refl; points = refl }

move_construct-Owns_example :
    let (t, rest) = move_construct full in
    Owns memory t one_entry × Owns (destruct rest memory) t one_entry × (rest.value ≡ t.value)
move_construct-Owns_example = move_construct-Owns full memory one_entry memory-IsHeap full-Owns

copies-Owns_example :
    IsCopied full one_entry (copy_construct full memory)
    × IsCopied full one_entry (copy_assign false vacant full memory)
copies-Owns_example =
    copies-Owns vacant full memory one_entry memory-IsHeap full-Owns (λ e. omega (arith, e))
      (omega arith) false

abbrev two_pairs : List (Bytes × FieldValue)
two_pairs = (b'a' ∷ [], from_bool true) ∷ (b'b' ∷ [], from_int32 (pos 7)) ∷ []

abbrev two_entries : Entries
two_entries =
    Entries.entry (b'a' ∷ []) (Value.boolean true)
      (Entries.entry (b'b' ∷ []) (Value.i32 (pos 7)) Entries.no_entries)

with_entries_example :
    let (args, k) = build_args two_pairs no_memory in
    ((declare_with 1 queue false true false false args k).0
      ≡ some (Queue.declare queue false true false false two_entries))
    × ((bind_with 1 queue (b'e' ∷ []) (b'#' ∷ []) args k).0
        ≡ some (Queue.bind queue (b'e' ∷ []) (b'#' ∷ []) two_entries))
    × ((unbind_with 1 queue (b'e' ∷ []) (b'#' ∷ []) args k).0
        ≡ some (Queue.unbind queue (b'e' ∷ []) (b'#' ∷ []) two_entries))
    × ((consume_with 1 queue [] false true false args k).0
        ≡ some (Queue.consume queue [] false true false two_entries))
unfolding described read_value read_member from_bool from_int32
with_entries_example =
    with_entries 1 queue two_pairs no_memory two_entries no_memory-IsHeap refl false true false
      false (b'e' ∷ []) (b'#' ∷ []) []

with_literal_example :
    let (arg, k) = literal_entry (b'x' ∷ []) (b'c' ∷ b'l' ∷ []) no_memory in
    ((declare_with 3 queue false true false false (arg ∷ []) k).0 ≡ none)
    × ((bind_with 3 queue (b'e' ∷ []) (b'#' ∷ []) (arg ∷ []) k).0 ≡ none)
    × ((unbind_with 3 queue (b'e' ∷ []) (b'#' ∷ []) (arg ∷ []) k).0 ≡ none)
    × ((consume_with 3 queue [] false true false (arg ∷ []) k).0 ≡ none)
with_literal_example =
    with_literal 3 queue (b'x' ∷ []) b'c' (b'l' ∷ []) no_memory false true false false (b'e' ∷ [])
      (b'#' ∷ []) []
