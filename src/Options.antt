-- ===== src/Options.antt =====
-- options.go: the functional options of `Set`, `SetMulti` and `GetOrSet`.
pub mod Laws
use nyro.Base.{Bool, true, false, ◌&&◌, List, [], ◌∷◌}
use nyro.Base.Duration.{ℤ, pos, Duration, is_zero}
use nyro.Base.Text.{Text}

pub record Options : Type 0 where
  pub synchronous_set : Bool
  pub cost : ℤ
  pub expiration : Duration
  pub tags : List Text
  pub tags_ttl : Duration
  pub client_side_cache_expiration : Duration

abbrev pub Option : Type 0
Option = Options → Options

-- `&Options{}`
abbrev pub zero_options : Options
zero_options = record {
  synchronous_set = false;
  cost = pos 0;
  expiration = pos 0;
  tags = [];
  tags_ttl = pos 0;
  client_side_cache_expiration = pos 0;
}

no_tags : List Text → Bool
no_tags [] = true
no_tags (t ∷ ts) = false

unfoldable pub is_empty : Options → Bool
unfolding no_tags
is_empty o = is_zero o.cost && (is_zero o.expiration && no_tags o.tags)

-- The loop `for _, opt := range opts { opt(o) }`.
apply_each : Options → List Option → Options
apply_each o [] = o
apply_each o (opt ∷ opts) = apply_each (opt o) opts

unfoldable pub apply_options_with_default : Options → List Option → Options
unfolding apply_each
apply_options_with_default default_options opts = apply_each default_options opts

unfoldable pub apply_options : List Option → Options
unfolding apply_each
apply_options opts = apply_each zero_options opts

unfoldable pub with_cost : ℤ → Option
with_cost cost = λ o. record o { cost = cost }

unfoldable pub with_synchronous_set : Option
with_synchronous_set = λ o. record o { synchronous_set = true }

unfoldable pub with_expiration : Duration → Option
with_expiration expiration = λ o. record o { expiration = expiration }

unfoldable pub with_ttl : Duration → Option
unfolding with_expiration
with_ttl ttl = with_expiration ttl

unfoldable pub with_tags : List Text → Option
with_tags tags = λ o. record o { tags = tags }

unfoldable pub with_tags_ttl : Duration → Option
with_tags_ttl ttl = λ o. record o { tags_ttl = ttl }

unfoldable pub with_client_side_caching : Duration → Option
with_client_side_caching d = λ o. record o { client_side_cache_expiration = d }
