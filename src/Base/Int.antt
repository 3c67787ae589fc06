-- ===== src/Base/Int.antt =====
-- Signed integers over the native numbers, under the library's names, with the truncating division
-- of C++. Sums and orders go through the two parts of an integer, which `omega` reads.
use native.Mathlib.Nat.{zero-div}
use rabbitmq_cxx.Base.{
  ℕ, zero, suc, ◌+◌, ◌-◌, ◌*◌, ◌/◌, ◌≤◌, ◌<◌, ◌≡◌, refl, Bool, true, false, arith, ltb, leb,
  if◌then◌else◌,
}

-- `negsuc n` is -(n + 1).
pub data ℤ : Type 0 where
  pos : ℕ → ℤ
  negsuc : ℕ → ℤ

abbrev pub pos_part : ℤ → ℕ
pos_part (pos n) = n
pos_part (negsuc n) = 0

abbrev pub neg_part : ℤ → ℕ
neg_part (pos n) = 0
neg_part (negsuc n) = suc n

-- a - b, as an integer.
abbrev pub sub_ℕ : ℕ → ℕ → ℤ
sub_ℕ a b = if leb b a then pos (a - b) else negsuc (b - a - 1)

infixl 65 ◌+ℤ◌ ◌-ℤ◌
infix 50 ◌≤ℤ◌ ◌<ℤ◌
unfoldable pub ◌+ℤ◌ : ℤ → ℤ → ℤ
a +ℤ b = sub_ℕ (pos_part a + pos_part b) (neg_part a + neg_part b)

unfoldable pub ◌-ℤ◌ : ℤ → ℤ → ℤ
a -ℤ b = sub_ℕ (pos_part a + neg_part b) (neg_part a + pos_part b)

abbrev pub ◌≤ℤ◌ : ℤ → ℤ → Type 0
a ≤ℤ b = pos_part a + neg_part b ≤ pos_part b + neg_part a

abbrev pub ◌<ℤ◌ : ℤ → ℤ → Type 0
a <ℤ b = pos_part a + neg_part b < pos_part b + neg_part a

abbrev pub ltb_ℤ : ℤ → ℤ → Bool
ltb_ℤ a b = ltb (pos_part a + neg_part b) (pos_part b + neg_part a)

-- A product by an unsigned factor.
unfoldable pub scale : ℤ → ℕ → ℤ
scale a n = sub_ℕ (pos_part a * n) (neg_part a * n)

-- a / n, rounded towards zero as `/` of C++ is.
unfoldable pub tdiv : ℤ → ℕ → ℤ
tdiv a n = sub_ℕ (pos_part a / n) (neg_part a / n)

unfoldable pub max_ℤ : ℤ → ℤ → ℤ
max_ℤ a b = if ltb_ℤ a b then b else a

-- One lemma for each operation lets `omega` work with the operations shut, at any depth.
pub +ℤ_parts :
    (a b : ℤ)
    → pos_part (a +ℤ b) + neg_part a + neg_part b ≡ neg_part (a +ℤ b) + pos_part a + pos_part b
unfolding ◌+ℤ◌
+ℤ_parts a b = ground arith

pub -ℤ_parts :
    (a b : ℤ)
    → pos_part (a -ℤ b) + neg_part a + pos_part b ≡ neg_part (a -ℤ b) + pos_part a + neg_part b
unfolding ◌-ℤ◌
-ℤ_parts a b = ground arith

pub eq_of_parts : (a b : ℤ) → pos_part a + neg_part b ≡ pos_part b + neg_part a → a ≡ b
eq_of_parts a b h = ground arith

pub ruleset int_laws = (arith, +ℤ_parts, -ℤ_parts, eq_of_parts)

-- A number with its sign, and the operations on numbers of one sign.
abbrev pub signed : Bool → ℕ → ℤ
signed true n = pos n
signed false n = sub_ℕ 0 n

pub signed-cases : (d : ℤ) → (b : Bool) × (n : ℕ) × (d ≡ signed b n)
signed-cases (pos n) = (true, n, refl)
signed-cases (negsuc n) = (false, suc n, ground arith)

pub scale-signed : (b : Bool) (n k : ℕ) → scale (signed b n) k ≡ signed b (n * k)
unfolding scale
scale-signed true n k = ground arith
scale-signed false zero k = ground arith
scale-signed false (suc n) k = ground arith

pub tdiv-signed : (b : Bool) (n k : ℕ) → tdiv (signed b n) k ≡ signed b (n / k)
unfolding tdiv
tdiv-signed true n k = rw zero-div (ground arith)
tdiv-signed false zero k = rw zero-div (ground arith)
tdiv-signed false (suc n) k = ground (arith, zero-div k)

pub sub-signed : (b : Bool) (m n : ℕ) → n ≤ m → signed b m -ℤ signed b n ≡ signed b (m - n)
unfolding ◌-ℤ◌
sub-signed true m n h = ground arith
sub-signed false m n h = ground arith

pub add-signed : (b : Bool) (m n : ℕ) → signed b m +ℤ signed b n ≡ signed b (m + n)
unfolding ◌+ℤ◌
add-signed true m n = ground arith
add-signed false m n = ground arith

pub signed_lt :
    (b : Bool) (n k : ℕ) → n < k → (pos_part (signed b n) < k) × (neg_part (signed b n) < k)
signed_lt true n k h = ground arith
signed_lt false n k h = ground arith
