-- ===== src/TableEntry.antt =====
-- include/rmqcxx/TableEntry.hpp. The object owns its key, a std::string.
use rabbitmq_cxx.Base.{Bytes, Option, none, some}
use rabbitmq_cxx.Memory.{RawEntry, Heap, Container, new_string, bytes_of, container, free}
use rabbitmq_cxx.FieldValue.{FieldValue}

pub record TableEntry : Type 0 where
  pub key : Container
  pub value : FieldValue

-- TableEntry(std::string key, FieldValue value), with the string made of the text of the key.
unfoldable pub construct : Bytes → FieldValue → Heap → TableEntry × Heap
construct key value h = let (s, k) = new_string key h in (record { key = s; value = value }, k)

abbrev with_key : FieldValue → Heap → Option Bytes → Option (TableEntry × Heap)
with_key value h none = none
with_key value h (some key) = some (construct key value h)

-- TableEntry(amqp_table_entry_t entry): the key is copied.
unfoldable pub from_entry : RawEntry → Heap → Option (TableEntry × Heap)
from_entry entry h = with_key entry.value h (container h entry.key)

-- ~TableEntry
unfoldable pub destruct : TableEntry → Heap → Heap
destruct e h = free e.key.buffer h

-- operator amqp_table_entry_t: a view of the key.
unfoldable pub to_entry : TableEntry → RawEntry
to_entry e = record { key = bytes_of e.key; value = e.value }
