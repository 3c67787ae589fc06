-- ===== src/Table/Reading.antt =====
-- What the C library reads of a table that include/rmqcxx/Table.hpp builds, with the fuel of
-- FieldValue/Reading.antt.
use rabbitmq_cxx.Base.{ℕ, suc, ◌≡◌, refl, List, [], ◌∷◌, some, map, length, Bytes}
use rabbitmq_cxx.Amqp.{Value, Entries}
use rabbitmq_cxx.Memory.{
  RawTable, RawEntry, entries, Heap, IsHeap, alloc-Extends, Extends, chars, new_string, leb_self,
  take-length,
}
use rabbitmq_cxx.FieldValue.{FieldValue, from_table}
use rabbitmq_cxx.FieldValue.Literals.{new_string_lem}
use rabbitmq_cxx.FieldValue.Reading.{read_value, read_entries, read_table, read_member, entries_of}
use rabbitmq_cxx.FieldValue.Reading.Stable.{read_value-Below, read_entries-Below}
use rabbitmq_cxx.TableEntry
use rabbitmq_cxx.TableEntry.{TableEntry, to_entry}
use rabbitmq_cxx.Table.{Table, construct, new_vector, view}
use rabbitmq_cxx.Table.Ownership.{Owns, construct-Owns}

entries_of-all : (es : List RawEntry) → entries_of (length es) (some (entries es)) ≡ some es
entries_of-all [] = refl
entries_of-all (e ∷ es) = rw (leb_self (length (e ∷ es)), take-length (e ∷ es)) refl

-- A table reads as its elements do, wherever they are.
pub read_table-Owns :
    (fuel : ℕ) (h : Heap) (t : Table) (es : List RawEntry)
    → Owns h t es
    → read_table fuel h t.value ≡ read_entries (read_value fuel h) h es
unfolding read_table view
read_table-Owns fuel h t es own = rw (own.points, own.counted, own.held, entries_of-all es) refl

-- A table that is built of entries which read as `es` reads as `es`, in the order of the arguments.
pub construct-read_table :
    (fuel : ℕ) (args : List TableEntry) (h : Heap) (es : Entries)
    → IsHeap h
    → read_entries (read_value fuel h) h (map to_entry args) ≡ some es
    → let (t, k) = construct args h in read_table fuel k t.value ≡ some es
unfolding construct new_vector
construct-read_table fuel args h es fresh e =
    let (t, k) = construct args h in
    let grown : Extends h k = alloc-Extends (entries (map to_entry args)) h fresh in
    rw (read_table-Owns fuel k t (map to_entry args) (construct-Owns args h))
      (read_entries-Below h k grown _ _ (read_value-Below h k grown fuel) (map to_entry args) es e)

-- A table as a value of another table reads as a nested table, one level deeper.
pub from_table_lem :
    (fuel : ℕ) (h : Heap) (t : RawTable) (es : Entries)
    → read_table fuel h t ≡ some es
    → read_value (suc fuel) h (from_table t) ≡ some (Value.table es)
unfolding read_value read_member from_table read_table
from_table_lem fuel h t es e = rw e refl

-- An entry reads as its key and its value, for as long as both are there.
pub construct-read_entries :
    (fuel : ℕ) (key : Bytes) (v : FieldValue) (value : Value) (h : Heap)
    → IsHeap h
    → read_value fuel h v ≡ some value
    → let (e, k) = TableEntry.construct key v h in
      read_entries (read_value fuel k) k (to_entry e ∷ [])
      ≡ some (Entries.entry key value Entries.no_entries)
unfolding TableEntry.construct to_entry read_entries
construct-read_entries fuel key v value h fresh e =
    let (s, k) = new_string key h in
    let grown : Extends h k = unfold new_string in alloc-Extends (chars key) h fresh in
    rw (new_string_lem key h, read_value-Below h k grown fuel v value e) refl
