-- ===== src/FieldValue/Literals.antt =====
-- What a FieldValue of include/rmqcxx/FieldValue.hpp reads as once it is constructed: scalars, a view
-- of a string, and a literal.
use rabbitmq_cxx.Base.{ℕ, zero, suc, ◌≡◌, refl, Bool, [], ◌∷◌, none, some, Bytes, length, arith}
use rabbitmq_cxx.Base.Int.{ℤ}
use rabbitmq_cxx.Amqp.{Kind, Value}
use rabbitmq_cxx.Memory.{
  Heap, alloc, alloc_lem, free, bytes_of, new_string, container, take-length, leb_self, chars,
}
use rabbitmq_cxx.FieldValue.Reading.{read_value, read_member}
use rabbitmq_cxx.FieldValue.{
  from_bool, from_int8, from_uint8, from_int16, from_uint16, from_int32, from_uint32, from_int64,
  from_uint64, from_float, from_double, from_decimal, from_string, from_literal,
}

module _ (fuel : ℕ) (h : Heap) where
  -- Every scalar is read as what it was made of, in its own type and width.
  pub from_scalar_lem :
      (b : Bool) (z : ℤ) (n : ℕ)
      → (read_value (suc fuel) h (from_bool b) ≡ some (Value.boolean b))
        × (read_value (suc fuel) h (from_int8 z) ≡ some (Value.i8 z))
        × (read_value (suc fuel) h (from_uint8 n) ≡ some (Value.u8 n))
        × (read_value (suc fuel) h (from_int16 z) ≡ some (Value.i16 z))
        × (read_value (suc fuel) h (from_uint16 n) ≡ some (Value.u16 n))
        × (read_value (suc fuel) h (from_int32 z) ≡ some (Value.i32 z))
        × (read_value (suc fuel) h (from_uint32 n) ≡ some (Value.u32 n))
        × (read_value (suc fuel) h (from_int64 z) ≡ some (Value.i64 z))
        × (read_value (suc fuel) h (from_uint64 n) ≡ some (Value.u64 n))
        × (read_value (suc fuel) h (from_float n) ≡ some (Value.f32 n))
        × (read_value (suc fuel) h (from_double n) ≡ some (Value.f64 n))
        × (read_value (suc fuel) h (from_decimal n) ≡ some (Value.decimal n))
  unfolding read_value read_member from_bool from_int8 from_uint8 from_int16 from_uint16 from_int32
      from_uint32 from_int64 from_uint64 from_float from_double from_decimal
  from_scalar_lem b z n = (refl, refl, refl, refl, refl, refl, refl, refl, refl, refl, refl, refl)

pub new_string_lem :
    (text : Bytes) (h : Heap)
    → container (new_string text h).1 (bytes_of (new_string text h).0) ≡ some text
unfolding new_string bytes_of container
new_string_lem text h = rw (alloc_lem (chars text) h) (go text)
  where
    go : (t : Bytes) → rabbitmq_cxx.Memory.chars_of (length t) (some (chars t)) ≡ some t
    go [] = refl
    go (c ∷ t) = rw (leb_self (length (c ∷ t)), take-length (c ∷ t)) refl

-- While a string is alive, a value that views it reads as its text.
pub from_string_lem :
    (fuel : ℕ) (text : Bytes) (h : Heap)
    → let (s, k) = new_string text h in
      read_value (suc fuel) k (from_string s Kind.utf8) ≡ some (Value.bytes Kind.utf8 text)
unfolding read_value read_member from_string
from_string_lem fuel text h = rw (new_string_lem text h) refl

-- A value made of a literal that is not empty cannot be read at all: what it views is gone.
pub from_literal-dangles :
    (fuel : ℕ) (c : ℕ) (text : Bytes) (h : Heap)
    → let (v, k) = from_literal (c ∷ text) Kind.utf8 h in read_value fuel k v ≡ none
unfolding from_literal read_value read_member from_string new_string bytes_of container free alloc
from_literal-dangles zero c text h = refl
from_literal-dangles (suc fuel) c text h = ground arith
