-- ===== src/Keys/Decimal.antt =====
-- strconv.FormatUint and FormatInt in base ten, with the reading that undoes them.
use nyro.Base.{
  ℕ, zero, suc, ◌+◌, ◌-◌, ◌*◌, ◌/◌, ◌%◌, ◌≤◌, ◌<◌, ◌≡◌, refl, sym, ap, ◌∙◌, [], ◌∷◌, ◌++◌, arith,
  ltb, if◌then◌else◌, Bool-cases, inl, inr,
}
use nyro.Base.Duration.{ℤ, pos, negsuc}
use nyro.Base.Text.{Text}

-- One more digit than `n` has is enough fuel, so `suc n` is.
digits : ℕ → ℕ → Text
digits zero n = []
digits (suc f) n =
    let more = digits f (n / 10) ++ ((b'0' + n % 10) ∷ []) in
    if ltb n 10 then (b'0' + n) ∷ [] else more

unfoldable pub format_uint : ℕ → Text
unfolding digits
format_uint n = digits (suc n) n

unfoldable pub format_int : ℤ → Text
format_int (pos n) = format_uint n
format_int (negsuc n) = b'-' ∷ format_uint (suc n)

-- The number that a row of digits stands for.
read : ℕ → Text → ℕ
read acc [] = acc
read acc (c ∷ s) = read (acc * 10 + (c - b'0')) s

read-append : (acc : ℕ) (s t : Text) → read acc (s ++ t) ≡ read (read acc s) t
unfolding read
read-append acc [] t = refl
read-append acc (c ∷ s) t = read-append (acc * 10 + (c - b'0')) s t

read-digits : (f n : ℕ) → n < f → read 0 (digits f n) ≡ n
unfolding digits read
read-digits zero n h = elim h [ ]
read-digits (suc f) n h = elim (Bool-cases (ltb n 10)) [
  | inl small ↦ rw small (omega arith)
  | inr large ↦ rw large (
      rw
        (
          read-append 0 (digits f (n / 10)) ((b'0' + n % 10) ∷ []),
          read-digits f (n / 10) (ground arith),
        )
        (omega arith))
]

-- Appending keeps the first byte, so it stays one that satisfies a bound.
first_of_append :
    (s : Text) (d c : ℕ) (r : Text)
    → ((c' : ℕ) (r' : Text) → s ≡ c' ∷ r' → b'0' ≤ c')
    → b'0' ≤ d
    → s ++ (d ∷ []) ≡ c ∷ r
    → b'0' ≤ c
first_of_append [] d c r all h e = ground arith
first_of_append (x ∷ s) d c r all h e = ground (arith, all x s refl)

-- No row of digits begins with a sign.
first_is_digit : (f n c : ℕ) (r : Text) → digits f n ≡ c ∷ r → b'0' ≤ c
unfolding digits
first_is_digit zero n c r h = cc
first_is_digit (suc f) n c r h = elim (Bool-cases (ltb n 10)) [
  | inl small ↦ ground arith
  | inr large ↦
      first_of_append (digits f (n / 10)) (b'0' + n % 10) c r (first_is_digit f (n / 10))
        (omega arith) (rw large at h)
]

-- Different numbers are printed differently.
pub format_uint-injective : (m n : ℕ) → format_uint m ≡ format_uint n → m ≡ n
unfolding format_uint
format_uint-injective m n h =
    sym (read-digits (suc m) m (omega arith))
    ∙ (ap (read 0) h ∙ read-digits (suc n) n (omega arith))

sign_first : (n m : ℕ) → format_uint n ≡ b'-' ∷ format_uint m → ⊥
unfolding format_uint
sign_first n m h =
    let small : 48 ≤ b'-' = first_is_digit (suc n) n b'-' (digits (suc m) m) h in omega arith

pub format_int-injective : (a b : ℤ) → format_int a ≡ format_int b → a ≡ b
unfolding format_int
format_int-injective (pos m) (pos n) h = ap pos (format_uint-injective m n h)
format_int-injective (pos m) (negsuc n) h = absurd (sign_first m (suc n) h)
format_int-injective (negsuc m) (pos n) h = absurd (sign_first n (suc m) (sym h))
format_int-injective (negsuc m) (negsuc n) h =
    let e : suc m ≡ suc n = format_uint-injective (suc m) (suc n) (cc h) in ground arith
