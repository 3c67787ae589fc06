-- ===== src/Table/Ownership.antt =====
-- Which memory a table of include/rmqcxx/Table.hpp owns and points to, over copies, moves and
-- destruction.
use rabbitmq_cxx.Base.{
  Option, ◌<◌, ◌≡◌, ◌≢◌, sym, refl, Bool, true, false, List, [], ◌∷◌, some, map, length, arith,
}
use rabbitmq_cxx.Memory.{
  RawEntry, Container, put, entries, Heap, IsHeap, alloc, alloc_lem, alloc-Extends, next-ne, free,
}
use rabbitmq_cxx.TableEntry.{TableEntry, to_entry}
use rabbitmq_cxx.Table.{
  Table, view, elements, new_vector, construct, with_elements, copy_construct, move_construct,
  copy_assign, move_assign, destruct,
}

-- The table owns a buffer with these elements, and its amqp_table_t is a view of just that.
pub record Owns (h : Heap) (t : Table) (es : List RawEntry) : Type 0 where
  pub held : h.cell t.cache.buffer ≡ some (entries es)
  pub counted : t.cache.size ≡ length es
  pub points : t.value ≡ view t.cache

pub length-map {ℓ κ} :
    {A : Type ℓ} {B : Type κ} (f : A → B) (xs : List A) → length (map f xs) ≡ length xs
length-map f [] = refl
length-map f (x ∷ xs) = rw (length-map f xs) refl

-- A new table owns the entries that its arguments convert to.
pub construct-Owns :
    (args : List TableEntry) (h : Heap)
    → let (t, k) = construct args h in Owns k t (map to_entry args)
unfolding construct new_vector view
construct-Owns args h = record {
  held = alloc_lem (entries (map to_entry args)) h;
  counted = refl;
  points = rw (length-map to_entry args) refl;
}

-- What is copied.
elements-Owns :
    (t : Table) (h : Heap) (es : List RawEntry) → Owns h t es → elements t.cache h ≡ some es
unfolding elements
elements-Owns t h [] own = rw own.counted refl
elements-Owns t h (e ∷ es) own = rw (own.counted, own.held) (ground arith)

-- A copy has a buffer of its own with the same entries, and the table that is copied keeps its own.
copy_construct-Owns :
    (other : Table) (h : Heap) (es : List RawEntry)
    → IsHeap h
    → Owns h other es
    → (t : Table) × (k : Heap) × (copy_construct other h ≡ some (t, k))
      × Owns k t es
      × Owns k other es
      × (t.cache.buffer ≢ other.cache.buffer)
unfolding copy_construct with_elements new_vector alloc
copy_construct-Owns other h es fresh own = (
  (with_elements es h).0,
  (with_elements es h).1,
  rw (elements-Owns other h es own) refl,
  record { held = alloc_lem (entries es) h; counted = refl; points = refl },
  record {
    held = (alloc-Extends (entries es) h fresh).keeps _ _ own.held;
    counted = own.counted;
    points = own.points;
  },
  next-ne h other.cache.buffer _ fresh own.held,
)

-- The end of a table takes nothing from one with another buffer.
pub destruct-Owns :
    (s t : Table) (h : Heap) (es : List RawEntry)
    → Owns h t es
    → t.cache.buffer ≢ s.cache.buffer
    → Owns (destruct s h) t es
unfolding destruct free
destruct-Owns s t h es own apart = record {
  held = ground (arith, own.held);
  counted = own.counted;
  points = own.points;
}

-- After a move construction the new table owns the entries, also when the table that was moved from is
-- destroyed. That one is left with a pointer to the same entries.
pub move_construct-Owns :
    (other : Table) (h : Heap) (es : List RawEntry)
    → IsHeap h
    → Owns h other es
    → let (t, rest) = move_construct other in
      Owns h t es × Owns (destruct rest h) t es × (rest.value ≡ t.value)
unfolding move_construct destruct free
move_construct-Owns other h es fresh own = (
  record { held = own.held; counted = own.counted; points = refl },
  record { held = ground (arith, own.held, fresh.null); counted = own.counted; points = refl },
  own.points,
)

-- A copy that holds the entries in a buffer of its own, next to the table that was copied.
abbrev pub IsCopied : Table → List RawEntry → Option (Table × Heap) → Type 0
IsCopied other es r =
    (t : Table) × (k : Heap) × (r ≡ some (t, k))
    × Owns k t es
    × Owns k other es
    × (t.cache.buffer ≢ other.cache.buffer)

module _ (self other : Table) (h : Heap) (es : List RawEntry) (fresh : IsHeap h)
    (own : Owns h other es) (apart : other.cache.buffer ≢ self.cache.buffer)
    (old : self.cache.buffer < h.next) where
  -- Between two tables with different buffers, a copy assignment succeeds, and leaves both with the
  -- entries, each in its own buffer, whether or not the vector keeps its buffer.
  copy_assign-Owns :
      (fits : Bool)
      → (t : Table) × (k : Heap) × (copy_assign fits self other h ≡ some (t, k))
        × Owns k t es
        × Owns k other es
        × (t.cache.buffer ≢ other.cache.buffer)
  unfolding copy_assign with_elements new_vector alloc free
  copy_assign-Owns true = (
    (let cache : Container = record self.cache { size = length es } in
        record { cache = cache; value = view cache }),
    record h { cell = put h.cell self.cache.buffer (some (entries es)) },
    rw (elements-Owns other h es own) refl,
    record { held = ground arith; counted = refl; points = refl },
    record { held = ground (arith, own.held); counted = own.counted; points = own.points },
    λ e. apart (sym e),
  )
  copy_assign-Owns false = (
    (with_elements es h).0,
    free self.cache.buffer (with_elements es h).1,
    rw (elements-Owns other h es own) refl,
    record { held = ground (arith, own.held); counted = refl; points = refl },
    record {
      held = ground (arith, own.held, fresh.unused h.next);
      counted = own.counted;
      points = own.points;
    },
    next-ne h other.cache.buffer _ fresh own.held,
  )

  -- Between two tables with different buffers, copy construction and copy assignment succeed, and
  -- leave both with the entries, each in its own buffer, whether or not the assigned vector keeps
  -- its buffer.
  pub copies-Owns :
      (fits : Bool)
      → IsCopied other es (copy_construct other h)
        × IsCopied other es (copy_assign fits self other h)
  copies-Owns fits = (copy_construct-Owns other h es fresh own, copy_assign-Owns fits)

  -- A move assignment leaves this table with the entries.
  pub move_assign-Owns :
      let ((t, rest), k) = move_assign self other h in Owns k t es × Owns (destruct rest k) t es
  unfolding move_assign destruct free
  move_assign-Owns = (
    record { held = ground (arith, own.held); counted = own.counted; points = refl },
    record { held = ground (arith, own.held, fresh.null); counted = own.counted; points = refl },
  )
