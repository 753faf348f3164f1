-- ===== src/Pure/Decay.antt =====
-- eshield-common/src/pure.rs: `decay_counter`, the exponential decay of a rate counter.
pub mod Bounds
use e_shield.Base.{ℕ, zero, suc, ◌/◌, min, ◌||◌, ◌==◌, if◌then◌else◌, wrapping_mul64}

-- The `for` loop; `wrapping_div` is the plain division, since `decay_den` is not 0.
unfoldable pub decay_loop : ℕ → ℕ → ℕ → ℕ → ℕ
decay_loop zero num den decayed = decayed
decay_loop (suc n) num den decayed = decay_loop n num den (wrapping_mul64 decayed num / den)

unfoldable pub decay_counter : ℕ → ℕ → ℕ → ℕ → ℕ → ℕ
decay_counter counter elapsed_ns tick_ns decay_num decay_den =
    if tick_ns == 0 || decay_den == 0
    then counter
    else decay_loop (min (elapsed_ns / tick_ns) 64) decay_num decay_den counter
