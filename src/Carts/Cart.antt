-- ===== src/Carts/Cart.antt =====
-- carts/cart.go: the interface of a cart, to which the adapters delegate. The operation that guards a
-- load stands with it, under the key, the loader, the expiration and the TTL of the lock.
use nyro.Base.{Bool, List, Option}
use nyro.Base.Duration.{Duration}
use nyro.Base.Text.{Text}
use nyro.Base.Dict.{Dict}
use nyro.Errors.{Result}
use nyro.Carts.Guard.{Action}

pub record Cart (W V : Type 0) : Type 0 where
  pub get : Text → Action W V
  pub set : Text → Option V → Duration → W → Result (Unit {0}) × W
  pub delete : Text → W → Result (Unit {0}) × W
  pub exists : Text → W → Result Bool × W
  pub get_multi : List Text → W → Result (Dict Text (Option V)) × W
  pub set_multi : Dict Text (Option V) → Duration → W → Result (Unit {0}) × W
  pub delete_multi : List Text → W → Result (Unit {0}) × W
  pub clear : W → Result (Unit {0}) × W
  pub health_check : W → Result (Unit {0}) × W
  pub close : W → Result (Unit {0}) × W
  pub get_or_set_with_lock : Text → Action W V → Duration → Duration → Action W V
