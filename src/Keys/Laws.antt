-- ===== src/Keys/Laws.antt =====
-- Which keys share a string: integers with one value, of whatever width, and texts that spell it.
use nyro.Base.{◌≡◌, refl, ◌↔◌, Option, none, some, arith, ap}
use nyro.Base.Duration.{ℤ, pos}
use nyro.Keys.{
  Key, string, int, int8, int16, int32, int64, uint, uint8, uint16, uint32, uint64, stringer, other,
  to_string, key_to_string,
}
use nyro.Keys.Decimal.{format_int, format_int-injective}

-- The integer that a key of an integer type holds.
unfoldable pub number : Key → Option ℤ
number (int v) = some v
number (int8 v) = some v
number (int16 v) = some v
number (int32 v) = some v
number (int64 v) = some v
number (uint v) = some (pos v)
number (uint8 v) = some (pos v)
number (uint16 v) = some (pos v)
number (uint32 v) = some (pos v)
number (uint64 v) = some (pos v)
number (string v) = none
number (stringer i s p) = none
number (other i p) = none

-- An integer key is written as its value in decimal.
to_string-number : (k : Key) {n : ℤ} → number k ≡ some n → to_string k ≡ format_int n
unfolding to_string number format_int
to_string-number (int v) h = ap format_int (cc h)
to_string-number k h = ground arith

-- Two integer keys have one string exactly if they hold the same value, whatever their types.
pub to_string-eq_iff :
    (a b : Key) {m n : ℤ}
    → number a ≡ some m
    → number b ≡ some n
    → (to_string a ≡ to_string b) ↔ (m ≡ n)
to_string-eq_iff a b {m} {n} ha hb = (
  λ e. format_int-injective m n (cc (to_string-number a ha, to_string-number b hb)),
  λ e. cc (to_string-number a ha, to_string-number b hb),
)

-- The two copies of the conversion agree at every key.
pub key_to_string-to_string : (k : Key) → key_to_string k ≡ to_string k
unfolding to_string key_to_string
key_to_string-to_string (string v) = refl
key_to_string-to_string k = refl
