-- ===== src/Table.antt =====
-- include/rmqcxx/Table.hpp. `cache_` is a std::vector that owns its elements, and `value_` points into
-- it, so every constructor and assignment has to set it anew. A vector that a copy is assigned to
-- either keeps its buffer or takes a new one, as its capacity has it.
pub mod Ownership
pub mod Reading
pub mod Building
pub mod Arguments
use rabbitmq_cxx.Base.{
  ℕ, Bool, true, false, List, [], Option, none, some, map, length, ◌==◌, if◌then◌else◌,
}
use rabbitmq_cxx.Memory.{RawTable, RawEntry, Block, entries, Heap, Container, alloc, free, put}
use rabbitmq_cxx.TableEntry.{TableEntry, to_entry}

pub record Table : Type 0 where
  pub cache : Container
  pub value : RawTable

-- { .num_entries = cache_.size(), .entries = cache_.data() }
unfoldable pub view : Container → RawTable
view cache = record { num_entries = cache.size; entries = cache.buffer }

unfoldable pub new_vector : List RawEntry → Heap → Container × Heap
new_vector es h = let (p, k) = alloc (entries es) h in (record { buffer = p; size = length es }, k)

-- Table(Args&&... args): `sizeof...(args)` is the number of arguments.
unfoldable pub construct : List TableEntry → Heap → Table × Heap
construct args h =
    let (cache, k) = new_vector (map to_entry args) h in
    (
      record {
        cache = cache;
        value = record { num_entries = length args; entries = cache.buffer };
      },
      k,
    )

abbrev pub stored : Option Block → Option (List RawEntry)
stored (some (entries es)) = some es
stored _ = none

-- The elements of a vector, which is not read where it is empty.
unfoldable pub elements : Container → Heap → Option (List RawEntry)
elements cache h = if cache.size == 0 then some [] else stored (h.cell cache.buffer)

-- A table with a new buffer for these elements.
unfoldable pub with_elements : List RawEntry → Heap → Table × Heap
with_elements es h =
    let (cache, k) = new_vector es h in (record { cache = cache; value = view cache }, k)

abbrev copied : Heap → Option (List RawEntry) → Option (Table × Heap)
copied h none = none
copied h (some es) = some (with_elements es h)

-- Table(const Table& other)
unfoldable pub copy_construct : Table → Heap → Option (Table × Heap)
copy_construct other h = copied h (elements other.cache h)

-- A vector that was moved from: it has no buffer.
abbrev pub emptied : Container
emptied = record { buffer = 0; size = 0 }

-- Table(Table&& other): the new table, and what `other` is left as.
unfoldable pub move_construct : Table → Table × Table
move_construct other =
    (record { cache = other.cache; value = view other.cache }, record other { cache = emptied })

abbrev assigned : Bool → Table → Heap → Option (List RawEntry) → Option (Table × Heap)
assigned fits self h none = none
assigned true self h (some es) =
    let cache : Container = record self.cache { size = length es } in
    some (
      record { cache = cache; value = view cache },
      record h { cell = put h.cell self.cache.buffer (some (entries es)) },
    )
assigned false self h (some es) =
    let (t, k) = with_elements es h in some (t, free self.cache.buffer k)

-- operator=(const Table& other), for two objects
unfoldable pub copy_assign : Bool → Table → Table → Heap → Option (Table × Heap)
copy_assign fits self other h = assigned fits self h (elements other.cache h)

-- operator=(Table&& other), for two objects: this table and `other`.
unfoldable pub move_assign : Table → Table → Heap → (Table × Table) × Heap
move_assign self other h = (
  (record { cache = other.cache; value = view other.cache }, record other { cache = emptied }),
  free self.cache.buffer h,
)

-- ~Table
unfoldable pub destruct : Table → Heap → Heap
destruct t h = free t.cache.buffer h
