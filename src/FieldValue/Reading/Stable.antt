-- ===== src/FieldValue/Reading/Stable.antt =====
-- What was read stays readable, with the same contents, when more memory is handed out.
use rabbitmq_cxx.Base.{ℕ, zero, suc, ◌≡◌, refl, List, [], ◌∷◌, Option, none, some, Bytes}
use rabbitmq_cxx.Amqp.{Kind, Value, Entries, Items}
use rabbitmq_cxx.Memory.{
  RawBytes, RawTable, Member, RawValue, RawEntry, Block, Heap, Extends, container, chars_of,
}
use rabbitmq_cxx.FieldValue.Reading.{
  entries_of, values_of, wrap, add_entry, add_item, after, read_entries, read_items, read_member,
  read_value, read_table,
}

-- Where the first is a result, the second is the same one.
abbrev pub Below : {A : Type 0} → Option A → Option A → Type 0
Below {A} a b = (x : A) → a ≡ some x → b ≡ some x

after-Below :
    {A B : Type 0} (f g : A → Option B) (a b : Option A)
    → ((x : A) → Below (f x) (g x))
    → Below a b
    → Below (after f a) (after g b)
after-Below f g none b fg ab x e = cc
after-Below f g (some y) b fg ab x e = rw (ab y refl) (fg y x e)

wrap-Below : {A : Type 0} (f : A → Value) (a b : Option A) → Below a b → Below (wrap f a) (wrap f b)
wrap-Below f none b ab x e = cc
wrap-Below f (some y) b ab x e = rw (ab y refl) e

pub add_entry-Below :
    (k k' : Option Bytes) (v v' : Option Value) (es es' : Option Entries)
    → Below k k'
    → Below v v'
    → Below es es'
    → Below (add_entry k v es) (add_entry k' v' es')
add_entry-Below (some k) k' (some v) v' (some es) es' p q r x e =
    rw (p k refl, q v refl, r es refl) e
add_entry-Below _ k' _ v' _ es' p q r x e = cc

add_item-Below :
    (v v' : Option Value) (vs vs' : Option Items)
    → Below v v'
    → Below vs vs'
    → Below (add_item v vs) (add_item v' vs')
add_item-Below (some v) v' (some vs) vs' p q x e = rw (p v refl, q vs refl) e
add_item-Below _ v' _ vs' p q x e = cc

chars_of-Below : (n : ℕ) (b c : Option Block) → Below b c → Below (chars_of n b) (chars_of n c)
chars_of-Below zero b c bc x e = e
chars_of-Below (suc n) none c bc x e = cc
chars_of-Below (suc n) (some b) c bc x e = rw (bc b refl) e

entries_of-Below :
    (n : ℕ) (b c : Option Block) → Below b c → Below (entries_of n b) (entries_of n c)
entries_of-Below zero b c bc x e = e
entries_of-Below (suc n) none c bc x e = cc
entries_of-Below (suc n) (some b) c bc x e = rw (bc b refl) e

values_of-Below : (n : ℕ) (b c : Option Block) → Below b c → Below (values_of n b) (values_of n c)
values_of-Below zero b c bc x e = e
values_of-Below (suc n) none c bc x e = cc
values_of-Below (suc n) (some b) c bc x e = rw (bc b refl) e

module _ (h k : Heap) (more : Extends h k) where
  pub container-Below : (b : RawBytes) → Below (container h b) (container k b)
  unfolding container
  container-Below b = chars_of-Below b.len _ _ (more.keeps b.bytes)

  module _ (r s : RawValue → Option Value) (rs : (v : RawValue) → Below (r v) (s v)) where
    pub read_entries-Below :
        (es : List RawEntry) → Below (read_entries r h es) (read_entries s k es)
    unfolding read_entries
    read_entries-Below [] = λ x e. e
    read_entries-Below (n ∷ es) =
        add_entry-Below _ _ _ _ _ _ (container-Below n.key) (rs n.value) (read_entries-Below es)

    read_items-Below : (vs : List RawValue) → Below (read_items r h vs) (read_items s k vs)
    unfolding read_items
    read_items-Below [] = λ x e. e
    read_items-Below (v ∷ vs) = add_item-Below _ _ _ _ (rs v) (read_items-Below vs)

    read_member-Below : (d : Kind) (m : Member) → Below (read_member r h d m) (read_member s k d m)
    unfolding read_member
    read_member-Below Kind.utf8 (Member.bytes v) = wrap-Below _ _ _ (container-Below v)
    read_member-Below Kind.bytes (Member.bytes v) = wrap-Below _ _ _ (container-Below v)
    read_member-Below Kind.table (Member.table v) = wrap-Below _ _ _ (
        after-Below _ _ _ _ read_entries-Below
          (entries_of-Below v.num_entries _ _ (more.keeps v.entries)))
    read_member-Below Kind.array (Member.array v) = wrap-Below _ _ _ (
        after-Below _ _ _ _ read_items-Below
          (values_of-Below v.num_entries _ _ (more.keeps v.entries)))
    read_member-Below _ _ = λ x e. e

  pub read_value-Below :
      (fuel : ℕ) (v : RawValue) → Below (read_value fuel h v) (read_value fuel k v)
  unfolding read_value
  read_value-Below zero v = λ x e. e
  read_value-Below (suc fuel) v = read_member-Below _ _ (read_value-Below fuel) v.kind v.value

  pub read_table-Below :
      (fuel : ℕ) (t : RawTable) → Below (read_table fuel h t) (read_table fuel k t)
  unfolding read_table
  read_table-Below fuel t =
      after-Below _ _ _ _ (read_entries-Below _ _ (read_value-Below fuel))
        (entries_of-Below t.num_entries _ _ (more.keeps t.entries))
