-- ===== src/FieldValue.antt =====
-- include/rmqcxx/FieldValue.hpp: an object is its one member `cache_`, an amqp_field_value_t. An
-- overload is named for the type that it takes.
pub mod Reading
pub mod Literals
use rabbitmq_cxx.Base.{ℕ, Bool, Bytes, ◌≡◌, refl}
use rabbitmq_cxx.Base.Int.{ℤ}
use rabbitmq_cxx.Amqp.{Kind}
use rabbitmq_cxx.Memory.{
  RawTable, RawArray, RawValue, Member, Heap, Container, bytes_of, new_string, free,
}

abbrev pub FieldValue : Type 0
FieldValue = RawValue

unfoldable pub from_bool : Bool → FieldValue
from_bool v = record { kind = Kind.boolean; value = Member.boolean v }

unfoldable pub from_int8 : ℤ → FieldValue
from_int8 v = record { kind = Kind.i8; value = Member.i8 v }

unfoldable pub from_uint8 : ℕ → FieldValue
from_uint8 v = record { kind = Kind.u8; value = Member.u8 v }

unfoldable pub from_int16 : ℤ → FieldValue
from_int16 v = record { kind = Kind.i16; value = Member.i16 v }

unfoldable pub from_uint16 : ℕ → FieldValue
from_uint16 v = record { kind = Kind.u16; value = Member.u16 v }

unfoldable pub from_int32 : ℤ → FieldValue
from_int32 v = record { kind = Kind.i32; value = Member.i32 v }

unfoldable pub from_uint32 : ℕ → FieldValue
from_uint32 v = record { kind = Kind.u32; value = Member.u32 v }

unfoldable pub from_int64 : ℤ → FieldValue
from_int64 v = record { kind = Kind.i64; value = Member.i64 v }

unfoldable pub from_uint64 : ℕ → FieldValue
from_uint64 v = record { kind = Kind.u64; value = Member.u64 v }

-- Floating-point numbers and amqp_decimal_t by their bits.
unfoldable pub from_float : ℕ → FieldValue
from_float v = record { kind = Kind.f32; value = Member.f32 v }

unfoldable pub from_double : ℕ → FieldValue
from_double v = record { kind = Kind.f64; value = Member.f64 v }

unfoldable pub from_decimal : ℕ → FieldValue
from_decimal v = record { kind = Kind.decimal; value = Member.decimal v }

-- FieldValue(const std::string& v, uint8_t kind): a view of `v`.
unfoldable pub from_string : Container → Kind → FieldValue
from_string v kind = record { kind = kind; value = Member.bytes (bytes_of v) }

-- FieldValue(const char* v, uint8_t kind): delegates with a temporary std::string, which is
-- destroyed when the other constructor has returned.
unfoldable pub from_literal : Bytes → Kind → Heap → FieldValue × Heap
from_literal v kind h =
    let (temporary, k) = new_string v h in (from_string temporary kind, free temporary.buffer k)

-- A container of bytes, a view as well.
unfoldable pub from_bytes : Container → FieldValue
from_bytes v = record { kind = Kind.bytes; value = Member.bytes (bytes_of v) }

-- FieldValue(amqp_table_t v)
unfoldable pub from_table : RawTable → FieldValue
from_table v = record { kind = Kind.table; value = Member.table v }

-- A container of amqp_field_value_t, and a view.
unfoldable pub from_values : Container → FieldValue
from_values v = record {
  kind = Kind.array;
  value = Member.array (record { num_entries = v.size; entries = v.buffer });
}
