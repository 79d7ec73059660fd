-- ===== src/Cache.antt =====
-- cache.go: the interface of a cache, over the world in which its operations run.
use nyro.Base.{Bool, List, Option}
use nyro.Base.Dict.{Dict}
use nyro.Errors.{Result}
use nyro.Keys.{Key}
use nyro.Options.{Option as CacheOption}
use nyro.Memory.{Stats}
use nyro.Carts.Guard.{Action}

pub record Cache (W V : Type 0) : Type 0 where
  pub get : Key → Action W V
  pub set : Key → Option V → List CacheOption → W → Result (Unit {0}) × W
  pub delete : Key → W → Result (Unit {0}) × W
  pub clear : W → Result (Unit {0}) × W
  pub exists : Key → W → Result Bool × W
  pub get_or_set : Key → Action W V → List CacheOption → Action W V
  pub get_multi : List Key → W → Result (Dict Key (Option V)) × W
  pub set_multi : Dict Key (Option V) → List CacheOption → W → Result (Unit {0}) × W
  pub delete_multi : List Key → W → Result (Unit {0}) × W
  pub health_check : W → Result (Unit {0}) × W
  pub get_stats : W → Result Stats × W
  pub close : W → Result (Unit {0}) × W
