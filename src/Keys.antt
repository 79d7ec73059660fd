-- ===== src/Keys.antt =====
-- internal/keyutil/keyutil.go and pkg/utils.go: the string form of a cache key.
pub mod Decimal
pub mod Format
pub mod Laws
use native.Mathlib.Decide.{ℕ_discrete}
use nyro.Base.{ℕ, Bool, true, false, ◌≡◌, ◌↔◌, arith, Eq}
use nyro.Base.Duration.{ℤ, pos, negsuc}
use nyro.Base.Text.{Text, bytes}
use Decimal.{format_int, format_uint}

-- A key by its dynamic type. A value of a type with a `String` method is an identity, what the
-- method returns, and what `%v` prints; any other value is an identity and what `%v` prints.
pub data Key : Type 0 where
  string : Text → Key
  int int8 int16 int32 int64 : ℤ → Key
  uint uint8 uint16 uint32 uint64 : ℕ → Key
  stringer : ℕ → Text → Text → Key
  other : ℕ → Text → Key

-- keyutil.ToString
unfoldable pub to_string : Key → Text
to_string (string v) = v
to_string (int v) = format_int v
to_string (int8 v) = format_int v
to_string (int16 v) = format_int v
to_string (int32 v) = format_int v
to_string (int64 v) = format_int v
to_string (uint v) = format_uint v
to_string (uint8 v) = format_uint v
to_string (uint16 v) = format_uint v
to_string (uint32 v) = format_uint v
to_string (uint64 v) = format_uint v
to_string (stringer i s p) = s
to_string (other i p) = p

-- pkg.KeyToString
unfoldable pub key_to_string : Key → Text
key_to_string (string v) = v
key_to_string (int v) = format_int v
key_to_string (int8 v) = format_int v
key_to_string (int16 v) = format_int v
key_to_string (int32 v) = format_int v
key_to_string (int64 v) = format_int v
key_to_string (uint v) = format_uint v
key_to_string (uint8 v) = format_uint v
key_to_string (uint16 v) = format_uint v
key_to_string (uint32 v) = format_uint v
key_to_string (uint64 v) = format_uint v
key_to_string (stringer i s p) = s
key_to_string (other i p) = p

pub Key-discrete : Discrete Key
Key-discrete = hlevel ℕ_discrete

pub key_beq : Key → Key → Bool
key_beq a b = elim (Key-discrete a b) [ yes _ ↦ true | no _ ↦ false ]

pub key_beq_iff : (a b : Key) → (key_beq a b ≡ true) ↔ (a ≡ b)
unfolding key_beq
key_beq_iff a b = ground arith

-- Interface values used as map keys are equal if their types and values are.
instance abbrev pub key_eq : Eq Key
key_eq = record { beq = key_beq; beq_iff = key_beq_iff }
