-- ===== src/Table/Building.antt =====
-- Building a table as the callers of include/rmqcxx/Table.hpp do: a TableEntry for each pair of a key
-- and a value, all of them alive, and a Table of them.
use rabbitmq_cxx.Base.{ℕ, ◌≡◌, List, [], ◌∷◌, Option, some, map, Bytes}
use rabbitmq_cxx.Amqp.{Entries}
use rabbitmq_cxx.Memory.{
  Heap, IsHeap, alloc-IsHeap, alloc-Extends, Extends, chars, bytes_of, new_string,
}
use rabbitmq_cxx.FieldValue.{FieldValue}
use rabbitmq_cxx.FieldValue.Literals.{new_string_lem}
use rabbitmq_cxx.FieldValue.Reading.{read_value, read_entries, read_table, add_entry}
use rabbitmq_cxx.FieldValue.Reading.Stable.{
  Below, read_value-Below, container-Below, add_entry-Below,
}
use rabbitmq_cxx.TableEntry
use rabbitmq_cxx.TableEntry.{TableEntry, to_entry}
use rabbitmq_cxx.Table.{construct}
use rabbitmq_cxx.Table.Reading.{construct-read_table}

unfoldable pub build_args : List (Bytes × FieldValue) → Heap → List TableEntry × Heap
build_args [] h = ([], h)
build_args ((key, v) ∷ r) h =
    let (e, k) = TableEntry.construct key v h in let (es, l) = build_args r k in (e ∷ es, l)

-- The table as its description says: the keys, each with what its value reads as.
unfoldable pub described : ℕ → Heap → List (Bytes × FieldValue) → Option Entries
described fuel h [] = some Entries.no_entries
described fuel h ((key, v) ∷ r) = add_entry (some key) (read_value fuel h v) (described fuel h r)

Extends-trans : (h k l : Heap) → Extends h k → Extends k l → Extends h l
Extends-trans h k l a b = record { keeps = λ p c e. b.keeps p c (a.keeps p c e) }

module _ (key : Bytes) (h : Heap) (fresh : IsHeap h) where
  new_string-IsHeap : IsHeap (new_string key h).1
  unfolding new_string
  new_string-IsHeap = alloc-IsHeap (chars key) h fresh

  new_string-Extends : Extends h (new_string key h).1
  unfolding new_string
  new_string-Extends = alloc-Extends (chars key) h fresh

build_args-IsHeap :
    (r : List (Bytes × FieldValue)) (h : Heap) → IsHeap h → IsHeap (build_args r h).1
unfolding build_args TableEntry.construct
build_args-IsHeap [] h fresh = fresh
build_args-IsHeap ((key, v) ∷ r) h fresh = build_args-IsHeap r _ (new_string-IsHeap key h fresh)

build_args-Extends :
    (r : List (Bytes × FieldValue)) (h : Heap) → IsHeap h → Extends h (build_args r h).1
unfolding build_args TableEntry.construct
build_args-Extends [] h fresh = record { keeps = λ p b e. e }
build_args-Extends ((key, v) ∷ r) h fresh =
    Extends-trans h _ _ (new_string-Extends key h fresh)
      (build_args-Extends r _ (new_string-IsHeap key h fresh))

described-Below :
    (fuel : ℕ) (h k : Heap) (r : List (Bytes × FieldValue))
    → Extends h k
    → Below (described fuel h r) (described fuel k r)
unfolding described
described-Below fuel h k [] more = λ x e. e
described-Below fuel h k ((key, v) ∷ r) more =
    add_entry-Below (some key) (some key) _ _ _ _ (λ x e. e) (read_value-Below h k more fuel v)
      (described-Below fuel h k r more)

build_args-read_entries :
    (fuel : ℕ) (r : List (Bytes × FieldValue)) (h : Heap)
    → IsHeap h
    → let (args, k) = build_args r h in
      Below (described fuel h r) (read_entries (read_value fuel k) k (map to_entry args))
unfolding build_args TableEntry.construct described read_entries to_entry
build_args-read_entries fuel [] h fresh = λ x e. e
build_args-read_entries fuel ((key, v) ∷ r) h fresh =
    let (s, k) = new_string key h in
    let fresh' : IsHeap k = new_string-IsHeap key h fresh in
    let l : Heap = (build_args r k).1 in
    let grown : Extends k l = build_args-Extends r k fresh' in
    add_entry-Below (some key) _ _ _ _ _
      (λ x e. container-Below k l grown (bytes_of s) x (rw (new_string_lem key h) e))
      (read_value-Below h l (Extends-trans h k l (new_string-Extends key h fresh) grown) fuel v)
      (λ x e.
        build_args-read_entries fuel r k fresh' x
          (described-Below fuel h k r (new_string-Extends key h fresh) x e))

-- If each value can be read before, the table that is built reads as the keys with these values, in
-- the order in which they were given.
pub build_args-construct :
    (fuel : ℕ) (r : List (Bytes × FieldValue)) (h : Heap) (es : Entries)
    → IsHeap h
    → described fuel h r ≡ some es
    → let (args, k) = build_args r h in
      let (t, l) = construct args k in read_table fuel l t.value ≡ some es
build_args-construct fuel r h es fresh e =
    construct-read_table fuel (build_args r h).0 (build_args r h).1 es (build_args-IsHeap r h fresh)
      (build_args-read_entries fuel r h fresh es e)
