-- ===== src/Keys/Format.antt =====
-- What package fmt makes of a duration under `%v`, which is `Duration.String`, and of a string under
-- `%q`, where the string is valid printable text beyond ASCII.
use nyro.Base.{
  ℕ, zero, suc, ◌/◌, ◌%◌, ◌+◌, ◌-◌, ◌*◌, [], ◌∷◌, ◌++◌, Bool, false, ◌||◌, ◌==◌, ◌≡◌, refl,
  if◌then◌else◌, ltb, nat_eq,
}
use nyro.Base.Duration.{Duration, pos, negsuc, second, millisecond}
use nyro.Base.Text.{Text, bytes}
use nyro.Keys.Decimal.{format_uint}

-- `fmtFrac`: the last digits of a number behind a point, from the right, without trailing zeros.
fmt_frac : ℕ → ℕ → Bool → Text → Text
fmt_frac zero v printed text = if printed then b'.' ∷ text else text
fmt_frac (suc prec) v printed text =
    let digit = v % 10 in
    let more = printed || ltb 0 digit in
    let rest = fmt_frac prec (v / 10) more (if more then (b'0' + digit) ∷ text else text) in rest

-- A number of units, of which `scale` is ten to the power of `prec`.
units : ℕ → ℕ → ℕ → Text → Text
unfolding fmt_frac
units prec scale v unit = format_uint (v / scale) ++ (fmt_frac prec v false [] ++ unit)

-- The sign `µ` in UTF-8.
micro : Text
micro = 194 ∷ 181 ∷ bytes "s"

hours : ℕ → Text
hours minutes =
    if ltb minutes 60
    then (if ltb 0 minutes then format_uint minutes ++ bytes "m" else [])
    else format_uint (minutes / 60) ++ (bytes "h" ++ (format_uint (minutes % 60) ++ bytes "m"))

magnitude : ℕ → Text
unfolding units micro hours
magnitude u =
    if u == 0
    then bytes "0s"
    else if ltb u 1000
    then format_uint u ++ bytes "ns"
    else if ltb u millisecond
    then units 3 1000 u micro
    else if ltb u second
    then units 6 millisecond u (bytes "ms")
    else hours (u / (60 * second)) ++ units 9 second (u % (60 * second)) (bytes "s")

unfoldable pub duration_string : Duration → Text
unfolding magnitude
duration_string (pos n) = magnitude n
duration_string (negsuc n) = b'-' ∷ magnitude (suc n)

-- A digit in hexadecimal.
unfoldable pub hex_digit : ℕ → ℕ
hex_digit n = if ltb n 10 then b'0' + n else b'a' + (n - 10)

escaped : ℕ → Text
unfolding hex_digit
escaped c =
    if c == 7
    then bytes "\\a"
    else if c == 8
    then bytes "\\b"
    else if c == 9
    then bytes "\\t"
    else if c == 10
    then bytes "\\n"
    else if c == 11
    then bytes "\\v"
    else if c == 12
    then bytes "\\f"
    else if c == 13
    then bytes "\\r"
    else if (c == b'"') || (c == b'\\')
    then b'\\' ∷ c ∷ []
    else if ltb c 32 || (c == 127)
    then b'\\' ∷ b'x' ∷ hex_digit (c / 16) ∷ hex_digit (c % 16) ∷ []
    else c ∷ []

escape_all : Text → Text
unfolding escaped
escape_all [] = []
escape_all (c ∷ s) = escaped c ++ escape_all s

unfoldable pub quoted : Text → Text
unfolding escape_all
quoted s = b'"' ∷ (escape_all s ++ (b'"' ∷ []))

-- One and a half hours, and a millisecond and a half.
long_wait : duration_string (pos (5400 * second)) ≡ bytes "1h30m0s"
unfolding duration_string format_uint
long_wait = refl

short_wait : duration_string (pos 1500000) ≡ bytes "1.5ms"
unfolding duration_string format_uint
short_wait = refl
