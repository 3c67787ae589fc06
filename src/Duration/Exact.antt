-- ===== src/Duration/Exact.antt =====
-- timeValue and durationValue of include/rmqcxx/util.hpp, over every period.
use native.Mathlib.Nat.{
  mul-add-div, div-lt_iff_lt-mul, div-mul-le_self, mul-one, one-mul, mul_assoc, lt-div-mul-add,
}
use rabbitmq_cxx.Base.{ℕ, ◌+◌, ◌-◌, ◌*◌, ◌/◌, ◌<◌, ◌≡◌, ap, Bool, arith}
use rabbitmq_cxx.Base.Int.{
  ℤ, pos_part, neg_part, signed, signed-cases, scale-signed, tdiv-signed, sub-signed, add-signed,
  signed_lt,
}
use rabbitmq_cxx.Amqp.{Timeval}
use rabbitmq_cxx.Duration.{Period, microseconds, time_value, duration_value, duration_cast}

split_micro : (x n : ℕ) → 0 < n → x / n * 1000000 + (x - x / n * n) * 1000000 / n ≡ x * 1000000 / n
split_micro x n h =
    let q : ℕ = x / n in
    let e : n * (q * 1000000) + (x - q * n) * 1000000 ≡ x * 1000000 =
      grind (arith, div-mul-le_self x n) in
    rw (← e, mul-add-div h)

micro_lt : (x n : ℕ) → 0 < n → (x - x / n * n) * 1000000 / n < 1000000
micro_lt x n h =
    (div-lt_iff_lt-mul h).1 (omega (arith, lt-div-mul-add {a = x} h, div-mul-le_self x n))

micro_total :
    (n k m : ℕ)
    → 0 < m
    → n * k / m * 1000000 / 1 + (n * k - n * k / m * m) * 1000000 / m * 1000000 / 1000000
      ≡ n * (k * 1000000) / m
micro_total n k m h =
    omega (arith, split_micro (n * k) m h, ap (λ (t : ℕ). t / m) (mul_assoc n k 1000000))

-- The timeval of a number of ticks, in its sign.
unfoldable pub timeval_of : Period → Bool → ℕ → Timeval
timeval_of p b x = record {
  tv_sec = signed b (x / p.den);
  tv_usec = signed b ((x - x / p.den * p.den) * 1000000 / p.den);
}

pub time_value-signed :
    (p : Period) (b : Bool) (n : ℕ) → time_value p (signed b n) ≡ timeval_of p b (n * p.num)
unfolding time_value timeval_of
time_value-signed p b n =
    simp (mul-one, one-mul, scale-signed, tdiv-signed)
      (rw (sub-signed b (n * p.num) (n * p.num / p.den * p.den) (div-mul-le_self _ _))
        (simp (scale-signed, tdiv-signed)))

module _ (p : Period) (h : 0 < p.den) where
  -- The microseconds of a timeval stay below a second, on either side of zero, in every period
  -- whose denominator is not zero.
  pub time_value-IsNormal :
      (d : ℤ)
      → (pos_part (time_value p d).tv_usec < 1000000)
        × (neg_part (time_value p d).tv_usec < 1000000)
  unfolding timeval_of
  time_value-IsNormal d =
      let (b, n, e) = signed-cases d in
      rw (e, time_value-signed p b n) (signed_lt b _ _ (micro_lt (n * p.num) p.den h))

  -- In whole microseconds, the way through a timeval is the direct cast, in every period whose
  -- denominator is not zero.
  duration_value-time_value :
      (d : ℤ) → duration_value microseconds (time_value p d) ≡ duration_cast p microseconds d
  unfolding duration_value timeval_of
  duration_value-time_value d =
      let (b, n, e) = signed-cases d in
      rw (e, time_value-signed p b n)
        (simp (mul-one, one-mul, scale-signed, tdiv-signed, add-signed)
          (ap (signed b) (micro_total n p.num p.den h)))
