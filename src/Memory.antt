-- ===== src/Memory.antt =====
-- The memory that the C structs of a table point into, and the std::string and std::vector objects
-- that own it. A pointer is the number of a block; a block that was freed is gone. A statement is
-- `none` when it reads memory that is not there.
use rabbitmq_cxx.Base.{
  ℕ, zero, suc, ◌≤◌, ◌<◌, ◌≡◌, ◌≢◌, refl, Bool, true, List, [], ◌∷◌, Option, none, some, Bytes,
  length, leb, ◌==◌, arith, if◌then◌else◌,
}
use rabbitmq_cxx.Base.Int.{ℤ}
use rabbitmq_cxx.Amqp.{Kind}

-- amqp_bytes_t, amqp_table_t and amqp_array_t
pub record RawBytes : Type 0 where
  pub len : ℕ
  pub bytes : ℕ

pub record RawTable : Type 0 where
  pub num_entries : ℕ
  pub entries : ℕ

pub record RawArray : Type 0 where
  pub num_entries : ℕ
  pub entries : ℕ

-- The union `value` of amqp_field_value_t: the member that was written.
pub data Member : Type 0 where
  boolean : Bool → Member
  i8 i16 i32 i64 : ℤ → Member
  u8 u16 u32 u64 : ℕ → Member
  f32 f64 decimal : ℕ → Member
  bytes : RawBytes → Member
  table : RawTable → Member
  array : RawArray → Member

-- amqp_field_value_t and amqp_table_entry_t
pub record RawValue : Type 0 where
  pub kind : Kind
  pub value : Member

pub record RawEntry : Type 0 where
  pub key : RawBytes
  pub value : RawValue

pub data Block : Type 0 where
  chars : Bytes → Block
  entries : List RawEntry → Block
  values : List RawValue → Block

pub record Heap : Type 0 where
  pub next : ℕ
  pub cell : ℕ → Option Block

abbrev pub put : (ℕ → Option Block) → ℕ → Option Block → ℕ → Option Block
put f p b q = if p == q then b else f q

unfoldable pub alloc : Block → Heap → ℕ × Heap
alloc b h = (h.next, record { next = suc h.next; cell = put h.cell h.next (some b) })

unfoldable pub free : ℕ → Heap → Heap
free p h = record h { cell = put h.cell p none }

-- Memory that was not handed out yet is not in use, and nothing is at the null pointer.
pub record IsHeap (h : Heap) : Type 0 where
  pub unused : (p : ℕ) → h.next ≤ p → h.cell p ≡ none
  pub null : h.cell 0 ≡ none
  pub some_next : 0 < h.next

-- What is in use in `h` is in use in `k`, with the same contents.
pub record Extends (h k : Heap) : Type 0 where
  pub keeps : (p : ℕ) (b : Block) → h.cell p ≡ some b → k.cell p ≡ some b

pub alloc-IsHeap : (b : Block) (h : Heap) → IsHeap h → IsHeap (alloc b h).1
unfolding alloc
alloc-IsHeap b h fresh = record {
  unused = λ p le. ground (arith, fresh.unused p);
  null = ground (arith, fresh.null, fresh.some_next);
  some_next = omega arith;
}

pub alloc-Extends : (b : Block) (h : Heap) → IsHeap h → Extends h (alloc b h).1
unfolding alloc
alloc-Extends b h fresh = record { keeps = λ p c e. ground (arith, fresh.unused p) }

pub alloc_lem : (b : Block) (h : Heap) → (alloc b h).1.cell (alloc b h).0 ≡ some b
unfolding alloc
alloc_lem b h = ground arith

-- What is in use is not handed out again.
pub next-ne : (h : Heap) (p : ℕ) (b : Block) → IsHeap h → h.cell p ≡ some b → h.next ≢ p
next-ne h p b fresh e q = ground (arith, fresh.unused p)

-- A std::string or a std::vector: its buffer, and how many elements there are.
pub record Container : Type 0 where
  pub buffer : ℕ
  pub size : ℕ

unfoldable pub new_string : Bytes → Heap → Container × Heap
new_string text h =
    let (p, k) = alloc (chars text) h in (record { buffer = p; size = length text }, k)

-- bytes of include/rmqcxx/util.hpp: a view of the container, which owns the memory.
unfoldable pub bytes_of : Container → RawBytes
bytes_of c = record { len = c.size; bytes = c.buffer }

abbrev pub take {ℓ} : {A : Type ℓ} → ℕ → List A → List A
take zero xs = []
take (suc n) [] = []
take (suc n) (x ∷ xs) = x ∷ take n xs

pub take-length {ℓ} : {A : Type ℓ} (xs : List A) → take (length xs) xs ≡ xs
take-length [] = refl
take-length (x ∷ xs) = rw (take-length xs) refl

pub leb_self : (n : ℕ) → leb n n ≡ true
leb_self n = ground arith

abbrev pub first {ℓ} : {A : Type ℓ} → ℕ → List A → Option (List A)
first n xs = if leb n (length xs) then some (take n xs) else none

abbrev pub chars_of : ℕ → Option Block → Option Bytes
chars_of zero b = some []
chars_of (suc n) (some (chars text)) = first (suc n) text
chars_of _ _ = none

-- container of include/rmqcxx/util.hpp: a copy of the bytes.
unfoldable pub container : Heap → RawBytes → Option Bytes
container h b = chars_of b.len (h.cell b.bytes)
