-- ===== src/Base/Duration.antt =====
-- `time.Duration`, a signed number of nanoseconds, and `time.Time`, the nanoseconds since the zero
-- value of that type. The int64 range of durations is not imposed.
use Prim.Native.Nat.{ℕ, suc, ◌+◌, ◌-◌, ◌*◌, ◌/◌}
use mathlib.Core.Path.{◌≡◌}
use mathlib.Core.Logic.{◌↔◌}
use mathlib.Core.Bool.{Bool, true, false}
use native.Mathlib.Omega.{arith}
use nyro.Base.Tests.{ltb, nat_beq, if◌then◌else◌, Eq}

-- `negsuc n` is -(n + 1).
pub data ℤ : Type 0 where
  pos : ℕ → ℤ
  negsuc : ℕ → ℤ

abbrev pub Duration : Type 0
Duration = ℤ

abbrev pub int_beq : ℤ → ℤ → Bool
int_beq (pos a) (pos b) = nat_beq a b
int_beq (negsuc a) (negsuc b) = nat_beq a b
int_beq _ _ = false

pub int_beq_iff : (a b : ℤ) → (int_beq a b ≡ true) ↔ (a ≡ b)
int_beq_iff a b = ground arith

instance abbrev pub int_eq : Eq ℤ
int_eq = record { beq = int_beq; beq_iff = int_beq_iff }

-- `d == 0`
abbrev pub is_zero : Duration → Bool
is_zero (pos n) = nat_beq n 0
is_zero (negsuc n) = false

-- `d > 0`
abbrev pub is_positive : Duration → Bool
is_positive (pos n) = ltb 0 n
is_positive (negsuc n) = false

abbrev pub Time : Type 0
Time = ℕ

-- `t.Add(d)`
abbrev pub add_time : Time → Duration → Time
add_time t (pos n) = t + n
add_time t (negsuc n) = t - suc n

-- `t.After(u)`
abbrev pub after : Time → Time → Bool
after t u = ltb u t

-- The units of package time.
abbrev pub second : ℕ
second = 1000000000

abbrev pub millisecond : ℕ
millisecond = 1000000

abbrev pub hour : ℕ
hour = 3600 * second

-- `int64(d.Seconds())`, which truncates toward zero (exact below 2^53 nanoseconds).
abbrev pub to_seconds : Duration → ℤ
to_seconds (pos n) = pos (n / second)
to_seconds (negsuc n) = let q = suc n / second in if nat_beq q 0 then pos 0 else negsuc (q - 1)
