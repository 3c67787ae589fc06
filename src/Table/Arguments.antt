-- ===== src/Table/Arguments.antt =====
-- A table as an argument: the methods of include/rmqcxx/Queue.hpp and include/rmqcxx/Exchange.hpp build
-- one of their last arguments, which the C library reads during the call, and destroy it at their
-- end.
use mathlib.Core.Option
use rabbitmq_cxx.Base.{
  ℕ, zero, suc, ◌≡◌, refl, List, [], ◌∷◌, Option, none, some, map, Bytes, length, arith,
}
use rabbitmq_cxx.Amqp.{Kind, Entries}
use rabbitmq_cxx.Memory.{Heap, IsHeap, Member, alloc, free, container, new_string, bytes_of}
use rabbitmq_cxx.FieldValue.{FieldValue, from_literal, from_string}
use rabbitmq_cxx.FieldValue.Reading.{read_value, read_member, read_table, read_entries, add_entry}
use rabbitmq_cxx.TableEntry
use rabbitmq_cxx.TableEntry.{TableEntry, to_entry}
use rabbitmq_cxx.Table.{construct, new_vector, destruct}
use rabbitmq_cxx.Table.Ownership.{construct-Owns}
use rabbitmq_cxx.Table.Reading.{read_table-Owns}
use rabbitmq_cxx.Table.Building.{build_args, described, build_args-construct}

-- Table arguments(args...); f(..., arguments): what is done with the entries that are read, if they can
-- be, and the memory once `arguments` is destroyed.
unfoldable pub with_arguments :
    {A : Type 0} → ℕ → List TableEntry → (Entries → A) → Heap → Option A × Heap
with_arguments fuel args f h =
    let (t, k) = construct args h in (Option.map f (read_table fuel k t.value), destruct t k)

module _ {A : Type 0} (fuel : ℕ) (f : Entries → A) where
  -- With arguments that can be read, the call gets the keys and the values, in their order.
  pub with_arguments-described :
      (r : List (Bytes × FieldValue)) (h : Heap) (es : Entries)
      → IsHeap h
      → described fuel h r ≡ some es
      → let (args, k) = build_args r h in (with_arguments fuel args f k).0 ≡ some (f es)
  unfolding with_arguments
  with_arguments-described r h es fresh e = rw (build_args-construct fuel r h es fresh e) refl

  -- Afterwards the memory is as it was before the call.
  pub with_arguments-frees :
      (args : List TableEntry) (h : Heap) (p : ℕ)
      → IsHeap h
      → (with_arguments fuel args f h).1.cell p ≡ h.cell p
  unfolding with_arguments construct new_vector alloc destruct free
  with_arguments-frees args h p fresh = ground (arith, fresh.unused p)

-- TableEntry arg(key, text), with a literal for the value.
unfoldable pub literal_entry : Bytes → Bytes → Heap → TableEntry × Heap
literal_entry key text h =
    let (v, k) = from_literal text Kind.utf8 h in TableEntry.construct key v k

read_value-gone :
    (fuel : ℕ) (h : Heap) (n p : ℕ)
    → h.cell p ≡ none
    → read_value fuel h
        (record { kind = Kind.utf8; value = Member.bytes (record { len = suc n; bytes = p }) })
      ≡ none
unfolding read_value read_member container
read_value-gone zero h n p e = refl
read_value-gone (suc fuel) h n p e = rw e refl

add_entry-none : (k : Option Bytes) (es : Option Entries) → add_entry k none es ≡ none
add_entry-none none es = refl
add_entry-none (some k) es = refl

module _ (key : Bytes) (c : ℕ) (text : Bytes) (h : Heap) where
  literal_gone :
      let (e, k) = literal_entry key (c ∷ text) h in
      let (t, l) = construct (e ∷ []) k in l.cell h.next ≡ none
  unfolding literal_entry from_literal TableEntry.construct construct new_vector new_string alloc
      free
  literal_gone = ground arith

  literal_entry-read_value :
      (fuel : ℕ)
      → let (e, k) = literal_entry key (c ∷ text) h in
        let (t, l) = construct (e ∷ []) k in read_value fuel l e.value ≡ none
  unfolding literal_entry from_literal from_string TableEntry.construct new_string alloc bytes_of
  literal_entry-read_value fuel =
      let (e, k) = literal_entry key (c ∷ text) h in
      let (t, l) = construct (e ∷ []) k in read_value-gone fuel l (length text) h.next literal_gone

  -- With an entry whose value is a literal, the call reads memory that is gone, whatever it does with
  -- it.
  pub literal_entry-with_arguments :
      {A : Type 0} (fuel : ℕ) (f : Entries → A)
      → let (e, k) = literal_entry key (c ∷ text) h in (with_arguments fuel (e ∷ []) f k).0 ≡ none
  unfolding with_arguments read_entries to_entry
  literal_entry-with_arguments fuel f =
      let (e, k) = literal_entry key (c ∷ text) h in
      let (t, l) = construct (e ∷ []) k in
      rw
        (
          read_table-Owns fuel l t (map to_entry (e ∷ [])) (construct-Owns (e ∷ []) k),
          literal_entry-read_value fuel,
          add_entry-none (container l (bytes_of e.key)) (some Entries.no_entries),
        )
        refl
