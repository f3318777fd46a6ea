-- ===== src/Audit/Dispatch/Clamps.antt =====
-- The clamps of the row that ClickHouseSink sends.
use bedem_waf.Common.{ℕ, suc, ◌+◌, ◌-◌, ◌^◌, ◌≤◌, ◌<◌, arith}
use bedem_waf.Common.Int.{ℤ, pos, negsuc}
use bedem_waf.Audit.Dispatch.{clamp_uint16, clamp_uint32}

-- How far a number is from one that is not negative.
abbrev pub distance : ℤ → ℕ → ℕ
distance (pos n) m = (n - m) + (m - n)
distance (negsuc n) m = suc n + m

-- The value is one of w bits, and no other of these is nearer to the number.
abbrev pub IsNearest : ℕ → ℤ → ℕ → Type 0
IsNearest w value r = (r < 2 ^ w) × ((m : ℕ) → m < 2 ^ w → distance value r ≤ distance value m)

uint16-IsNearest : (value : ℤ) → IsNearest 16 value (clamp_uint16 value)
unfolding clamp_uint16
uint16-IsNearest (pos n) = (ground arith, λ m h. ground (arith, h))
uint16-IsNearest (negsuc n) = (ground arith, λ m h. ground (arith, h))

uint32-IsNearest : (value : ℤ) → IsNearest 32 value (clamp_uint32 value)
unfolding clamp_uint32
uint32-IsNearest (pos n) = (ground arith, λ m h. ground (arith, h))
uint32-IsNearest (negsuc n) = (ground arith, λ m h. ground (arith, h))

-- clampUInt16 gives a number of 16 bits, and of all these the one nearest to the given number;
-- clampUInt32 does so for 32 bits.
pub clamp-IsNearest :
    (value : ℤ) → IsNearest 16 value (clamp_uint16 value) × IsNearest 32 value (clamp_uint32 value)
clamp-IsNearest value = (uint16-IsNearest value, uint32-IsNearest value)
