-- ===== src/FieldValue/Reading.antt =====
-- What the C library reads of an amqp_field_value_t or amqp_table_t: the member that the kind names,
-- and the memory that this points to. Values nest, and fuel bounds how deep.
pub mod Stable
use rabbitmq_cxx.Base.{ℕ, zero, suc, List, [], ◌∷◌, Option, none, some, Bytes}
use rabbitmq_cxx.Amqp.{Kind, Value, Entries, Items}
use rabbitmq_cxx.Memory.{
  RawTable, Member, RawValue, RawEntry, Block, entries, values, Heap, container, first,
}

abbrev pub entries_of : ℕ → Option Block → Option (List RawEntry)
entries_of zero b = some []
entries_of (suc n) (some (entries es)) = first (suc n) es
entries_of _ _ = none

abbrev pub values_of : ℕ → Option Block → Option (List RawValue)
values_of zero b = some []
values_of (suc n) (some (values vs)) = first (suc n) vs
values_of _ _ = none

abbrev pub wrap : {A : Type 0} → (A → Value) → Option A → Option Value
wrap f none = none
wrap f (some a) = some (f a)

abbrev pub add_entry : Option Bytes → Option Value → Option Entries → Option Entries
add_entry (some k) (some v) (some es) = some (Entries.entry k v es)
add_entry _ _ _ = none

abbrev pub add_item : Option Value → Option Items → Option Items
add_item (some v) (some vs) = some (Items.item v vs)
add_item _ _ = none

abbrev pub after : {A B : Type 0} → (A → Option B) → Option A → Option B
after f none = none
after f (some xs) = f xs

-- The elements, with a way to read one value.
module _ (read : RawValue → Option Value) (h : Heap) where
  unfoldable pub read_entries : List RawEntry → Option Entries
  read_entries [] = some Entries.no_entries
  read_entries (e ∷ es) = add_entry (container h e.key) (read e.value) (read_entries es)

  unfoldable pub read_items : List RawValue → Option Items
  read_items [] = some Items.no_items
  read_items (v ∷ vs) = add_item (read v) (read_items vs)

  -- The member is read that the kind stands for.
  unfoldable pub read_member : Kind → Member → Option Value
  read_member Kind.boolean (Member.boolean v) = some (Value.boolean v)
  read_member Kind.i8 (Member.i8 v) = some (Value.i8 v)
  read_member Kind.u8 (Member.u8 v) = some (Value.u8 v)
  read_member Kind.i16 (Member.i16 v) = some (Value.i16 v)
  read_member Kind.u16 (Member.u16 v) = some (Value.u16 v)
  read_member Kind.i32 (Member.i32 v) = some (Value.i32 v)
  read_member Kind.u32 (Member.u32 v) = some (Value.u32 v)
  read_member Kind.i64 (Member.i64 v) = some (Value.i64 v)
  read_member Kind.u64 (Member.u64 v) = some (Value.u64 v)
  read_member Kind.f32 (Member.f32 v) = some (Value.f32 v)
  read_member Kind.f64 (Member.f64 v) = some (Value.f64 v)
  read_member Kind.decimal (Member.decimal v) = some (Value.decimal v)
  read_member Kind.utf8 (Member.bytes v) = wrap (Value.bytes Kind.utf8) (container h v)
  read_member Kind.bytes (Member.bytes v) = wrap (Value.bytes Kind.bytes) (container h v)
  read_member Kind.table (Member.table v) =
      wrap Value.table (after read_entries (entries_of v.num_entries (h.cell v.entries)))
  read_member Kind.array (Member.array v) =
      wrap Value.array (after read_items (values_of v.num_entries (h.cell v.entries)))
  read_member _ _ = none

unfoldable pub read_value : ℕ → Heap → RawValue → Option Value
read_value zero h v = none
read_value (suc fuel) h v = read_member (read_value fuel h) h v.kind v.value

-- An amqp_table_t whose values nest no deeper than the fuel.
unfoldable pub read_table : ℕ → Heap → RawTable → Option Entries
read_table fuel h t =
    after (read_entries (read_value fuel h) h) (entries_of t.num_entries (h.cell t.entries))
