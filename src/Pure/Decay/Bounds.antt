-- ===== src/Pure/Decay/Bounds.antt =====
-- The decayed counter against the exact geometric decay, and its order.
use e_shield.Base.{
  ℕ, zero, suc, ◌+◌, ◌-◌, ◌*◌, ◌/◌, ◌^◌, ◌≤◌, ◌<◌, ◌≡◌, refl, min, arith, u64_mod, wrapping_mul64,
}
use native.Mathlib.Nat.{
  le_trans, pow-suc, pow-zero, mul_comm, mul_assoc, div-mul-le_self, mul-le-mul_right, mod-eq_of_lt,
  mul-le-mul_left, div-le_of_le-mul, mod-le, zero-add, suc-add,
}
use Prim.Native.Nat.{suc-le-suc}
use e_shield.Pure.Decay.{decay_loop, decay_counter}

-- The number of rounds that the loop makes.
abbrev pub rounds : ℕ → ℕ → ℕ
rounds elapsed tick = min (elapsed / tick) 64

one_round : (c num den : ℕ) → (wrapping_mul64 c num / den) * den ≤ c * num
one_round c num den = le_trans (div-mul-le_self (wrapping_mul64 c num) den) (omega arith)

decay_loop-le_exact : (n num den c : ℕ) → decay_loop n num den c * den ^ n ≤ c * num ^ n
unfolding decay_loop
decay_loop-le_exact zero num den c = rw (pow-zero den, pow-zero num) (omega arith)
decay_loop-le_exact (suc n) num den c =
    let next : ℕ = wrapping_mul64 c num / den in
    let goal_left : decay_loop n num den next * den ^ suc n ≤ next * num ^ n * den =
      rw (pow-suc den n, ← mul_assoc) (mul-le-mul_right den (decay_loop-le_exact n num den next)) in
    let goal_right : next * num ^ n * den ≤ c * num ^ suc n =
      rw pow-suc (grind (arith, mul-le-mul_right (num ^ n) (one_round c num den))) in
    le_trans goal_left goal_right

pub div_mono : (a b d : ℕ) → a ≤ b → a / d ≤ b / d
div_mono a b d h = grind arith

step-le : (c num den : ℕ) → num ≤ den → wrapping_mul64 c num / den ≤ c
step-le c num den h =
    div-le_of_le-mul den
      (rw mul_comm (grind (arith, mod-le (c * num) u64_mod, mul-le-mul_left c h)))

decay_loop_mono :
    (n num den c d : ℕ)
    → c ≤ d
    → num ≤ den
    → d * num < u64_mod
    → decay_loop n num den c ≤ decay_loop n num den d
unfolding decay_loop
decay_loop_mono zero num den c d h le fits = h
decay_loop_mono (suc n) num den c d h le fits =
    let small : wrapping_mul64 c num ≡ c * num = grind arith in
    let large : wrapping_mul64 d num ≡ d * num = omega (arith, mod-eq_of_lt fits) in
    decay_loop_mono n num den (wrapping_mul64 c num / den) (wrapping_mul64 d num / den)
      (rw (small, large) (div_mono (c * num) (d * num) den (mul-le-mul_right num h))) le
      (le_trans (suc-le-suc (mul-le-mul_right num (step-le d num den le))) fits)

-- The rounds may be read from the other end.
decay_loop_last :
    (n num den c : ℕ)
    → decay_loop (suc n) num den c ≡ wrapping_mul64 (decay_loop n num den c) num / den
unfolding decay_loop
decay_loop_last zero num den c = refl
decay_loop_last (suc n) num den c = decay_loop_last n num den (wrapping_mul64 c num / den)

decay_loop_antitone :
    (n k num den c : ℕ) → num ≤ den → decay_loop (n + k) num den c ≤ decay_loop k num den c
decay_loop_antitone zero k num den c h = rw zero-add (omega arith)
decay_loop_antitone (suc n) k num den c h =
    rw (suc-add, decay_loop_last)
      (le_trans (step-le (decay_loop (n + k) num den c) num den h)
        (decay_loop_antitone n k num den c h))

decay_loop-le :
    (k m num den c : ℕ) → num ≤ den → k ≤ m → decay_loop m num den c ≤ decay_loop k num den c
decay_loop-le k m num den c h le =
    let apart : m - k + k ≡ m = omega arith in
    rw apart at (decay_loop_antitone (m - k) k num den c h)

-- With a tick and a denominator, the decayed counter is at most the exact geometric decay over
-- the rounds made: the rounding in each round, and a product that wraps, only lower it.
decay_counter-le_exact :
    (c elapsed tick num den : ℕ)
    → 0 < tick
    → 0 < den
    → decay_counter c elapsed tick num den * den ^ rounds elapsed tick
      ≤ c * num ^ rounds elapsed tick
unfolding decay_counter
decay_counter-le_exact c elapsed tick num den ht hd =
    ground (arith, decay_loop-le_exact (rounds elapsed tick) num den c)

-- A longer silence never leaves a higher counter, and no counter grows, if the decay factor is at
-- most one.
pub decay_counter_antitone :
    (c e f tick num den : ℕ)
    → num ≤ den
    → e ≤ f
    → (decay_counter c f tick num den ≤ decay_counter c e tick num den)
      × (decay_counter c f tick num den ≤ c)
unfolding decay_counter decay_loop
decay_counter_antitone c e f tick num den h le = ground (
  arith,
  div_mono e f tick le,
  decay_loop-le (rounds e tick) (rounds f tick) num den c h,
  decay_loop-le 0 (rounds f tick) num den c h,
)

-- Of two counters the higher one stays the higher, if its first product fits 64 bits.
decay_counter_mono :
    (c d elapsed tick num den : ℕ)
    → c ≤ d
    → num ≤ den
    → d * num < u64_mod
    → decay_counter c elapsed tick num den ≤ decay_counter d elapsed tick num den
unfolding decay_counter
decay_counter_mono c d elapsed tick num den h le fits =
    ground (arith, decay_loop_mono (rounds elapsed tick) num den c d h le fits)
