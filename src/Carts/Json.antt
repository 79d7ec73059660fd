-- ===== src/Carts/Json.antt =====
-- encoding/json as the carts use it, on values of type `any` (`none` is nil): a parameter.
use nyro.Base.{Option, ◌≡◌}
use nyro.Base.Text.{Text}
use nyro.Errors.{Result, ok}

-- `raw` is the `any` that holds a string.
pub record Json (V : Type 0) : Type 0 where
  pub marshal : Option V → Result Text
  pub unmarshal : Text → Result (Option V)
  pub raw : Text → V

-- A value that decodes, from what it is encoded as, to `v'`: as JSON maps go, to itself or to the
-- generic form of a struct or a number.
abbrev pub Encodes : {V : Type 0} → Json V → Option V → Text → Option V → Type 0
Encodes json v s v' = (json.marshal v ≡ ok s) × (json.unmarshal s ≡ ok v')
