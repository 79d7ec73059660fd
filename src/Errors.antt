-- ===== src/Errors.antt =====
-- errors.go, carts/errors.go, and the Go error values that the library makes, wraps and inspects.
use nyro.Base.{Bool, true, false, ◌||◌, ◌≡◌, refl, ◌==◌, ◌++◌, ◌⊎◌, inl, inr}
use nyro.Base.Text.{Text, bytes, text_eq, text_beq}

-- The errors that are compared by identity: this library's, and those of package context.
pub data Sentinel : Type 0 where
  err_not_found err_backend_unavailable deadline_exceeded canceled : Sentinel

-- `fresh` is `errors.New` at the place of use, or the error of a loader, a client or another
-- library; `wrap` is `fmt.Errorf` with `: %w`; `not_found` is `*cart.NotFound` with its cause. A
-- panic, which nothing here recovers, takes the place of the result as `panicked`.
pub data Error : Type 0 where
  sentinel : Sentinel → Error
  fresh : Text → Error
  wrap : Text → Error → Error
  not_found : Error → Error
  panicked : Text → Error

-- carts.NotFoundWithCause
unfoldable pub not_found_with_cause : Error → Error
not_found_with_cause e = not_found e

abbrev err_not_found_msg : Text
err_not_found_msg = bytes "value not found in cart"

text_of : Sentinel → Text
text_of err_not_found = bytes "cache: key not found"
text_of err_backend_unavailable = bytes "cache: backend unavailable"
text_of deadline_exceeded = bytes "context deadline exceeded"
text_of canceled = bytes "context canceled"

-- `err.Error()`
unfoldable pub message : Error → Text
unfolding text_of
message (sentinel s) = text_of s
message (fresh t) = t
message (wrap t e) = t ++ (bytes ": " ++ message e)
message (not_found e) = err_not_found_msg
message (panicked t) = t

same : Sentinel → Sentinel → Bool
same err_not_found err_not_found = true
same err_backend_unavailable err_backend_unavailable = true
same deadline_exceeded deadline_exceeded = true
same canceled canceled = true
same _ _ = false

-- `NotFound.Is`, which compares the text of the target.
not_found_is : Sentinel → Bool
unfolding text_of
not_found_is t = text_of t == err_not_found_msg

-- `errors.Is(err, target)`: the error, what its `Is` method accepts, and what it unwraps to.
unfoldable pub is : Error → Sentinel → Bool
unfolding same not_found_is
is (sentinel s) t = same s t
is (fresh m) t = false
is (wrap m e) t = is e t
is (not_found e) t = not_found_is t || is e t
is (panicked m) t = false

-- `errors.As(err, &notFound)` at `*cart.NotFound`
unfoldable pub as_not_found : Error → Bool
as_not_found (sentinel s) = false
as_not_found (fresh m) = false
as_not_found (wrap m e) = as_not_found e
as_not_found (not_found e) = true
as_not_found (panicked m) = false

-- A method's results: a value, or an error.
pub data Result {ℓ} (A : Type ℓ) : Type ℓ where
  ok : A → Result A
  err : Error → Result A

abbrev pub map_err {ℓ} : {A : Type ℓ} → (Error → Error) → Result A → Result A
map_err f (ok a) = ok a
map_err f (err e) = err (f e)

-- A call whose result is turned into another.
abbrev pub mapping : {A B W : Type 0} → (Result A → Result B) → Result A × W → Result B × W
mapping f p = (f p.0, p.1)

pub Result-cases {ℓ} :
    {A : Type ℓ} (r : Result A) → ((a : A) × (r ≡ ok a)) ⊎ ((e : Error) × (r ≡ err e))
Result-cases (ok a) = inl (a, refl)
Result-cases (err e) = inr (e, refl)

-- The miss of a cart is `cart.NotFound`, which matches `cache.ErrNotFound` only if its cause does.
pub is-not_found : (e : Error) (t : Sentinel) → is (not_found e) t ≡ is e t
unfolding is text_beq
is-not_found e err_not_found = refl
is-not_found e _ = refl
