-- ===== src/Duration/Overflow.antt =====
-- Where the 64-bit arithmetic of std::chrono overflows in timeValue of include/rmqcxx/util.hpp, with the
-- clock's nanoseconds: nowhere.
use native.Mathlib.Nat.{div-mul-le_self, mul-one, one-mul}
use rabbitmq_cxx.Base.{ℕ, ◌*◌, ◌/◌, ◌≤◌, ◌<◌, Bool, true, false, arith}
use rabbitmq_cxx.Base.Int.{
  ℤ, pos_part, neg_part, scale, signed, signed-cases, scale-signed, tdiv-signed, sub-signed,
}
use rabbitmq_cxx.Duration.{seconds, nanoseconds, duration_cast, minus_seconds, time_value}

-- A value of a signed 64-bit integer.
abbrev pub Fits : ℤ → Type 0
Fits z = (pos_part z < 9223372036854775808) × (neg_part z ≤ 9223372036854775808)

-- What fits stays so nearer to zero.
Fits-signed : (b : Bool) (m n : ℕ) → m ≤ n → Fits (signed b n) → Fits (signed b m)
Fits-signed true m n le f = ground (arith, le, f)
Fits-signed false m n le f = ground (arith, le, f)

casts-Fits :
    (b : Bool) (n : ℕ)
    → Fits (signed b n)
    → let s = duration_cast nanoseconds seconds (signed b n) in
      Fits s
      × Fits (scale s 1000000000)
      × Fits (minus_seconds nanoseconds (signed b n) s)
      × Fits (time_value nanoseconds (signed b n)).tv_usec
unfolding duration_cast minus_seconds time_value
casts-Fits b n f =
    let le : n / 1000000000 * 1000000000 ≤ n = div-mul-le_self n 1000000000 in
    let small = λ (m : ℕ) (h : m ≤ n). Fits-signed b m n h f in
    simp (mul-one, scale-signed, tdiv-signed)
      (rw (sub-signed b n (n / 1000000000 * 1000000000) le) (
        simp (mul-one, scale-signed, tdiv-signed)
          (small _ (omega arith), small _ le, small _ (omega arith), small _ (omega arith))))

-- In nanoseconds, every value that timeValue computes fits into 64 bits if the duration does: the whole
-- seconds, these in nanoseconds, the rest, and its microseconds.
pub time_value-Fits :
    (d : ℤ)
    → Fits d
    → let s = duration_cast nanoseconds seconds d in
      Fits s
      × Fits (scale s 1000000000)
      × Fits (minus_seconds nanoseconds d s)
      × Fits (time_value nanoseconds d).tv_usec
time_value-Fits d f = let (b, n, e) = signed-cases d in rw e (casts-Fits b n (rw e at f))

-- A timeout in seconds fits into 64 bits of nanoseconds exactly if it is at most 9223372036 seconds,
-- on either side of zero.
pub cast_seconds-Fits :
    (d : ℤ)
    → ((pos_part d ≤ 9223372036) × (neg_part d ≤ 9223372036)
        → Fits (duration_cast seconds nanoseconds d))
      × (Fits (duration_cast seconds nanoseconds d)
          → (pos_part d ≤ 9223372036) × (neg_part d ≤ 9223372036))
unfolding duration_cast
cast_seconds-Fits d =
    let (b, n, e) = signed-cases d in
    rw e (simp (mul-one, one-mul, scale-signed, tdiv-signed) (go b n))
  where
    go :
        (b : Bool) (n : ℕ)
        → ((pos_part (signed b n) ≤ 9223372036) × (neg_part (signed b n) ≤ 9223372036)
            → Fits (signed b (n * 1000000000 / 1)))
          × (Fits (signed b (n * 1000000000 / 1))
              → (pos_part (signed b n) ≤ 9223372036) × (neg_part (signed b n) ≤ 9223372036))
    go true n = (λ u. ground arith, λ u. ground arith)
    go false n = (λ u. ground arith, λ u. ground arith)
