-- ===== src/Options/Laws.antt =====
-- What a list of options amounts to: the last option of each kind decides its field.
use nyro.Base.{true, List, [], ◌∷◌, map, ◌≡◌, refl, ◌↔◌, arith}
use nyro.Base.Duration.{ℤ, pos, Duration}
use nyro.Base.Text.{Text}
use nyro.Options.{
  Options, Option, apply_options, apply_options_with_default, with_cost, with_synchronous_set,
  with_expiration, with_ttl, with_tags, with_tags_ttl, with_client_side_caching, is_empty,
}

-- The options that the package offers.
pub data Setting : Type 0 where
  cost : ℤ → Setting
  synchronous_set : Setting
  expiration ttl : Duration → Setting
  tags : List Text → Setting
  tags_ttl client_side_caching : Duration → Setting

unfoldable pub option_of : Setting → Option
option_of (cost c) = with_cost c
option_of synchronous_set = with_synchronous_set
option_of (expiration d) = with_expiration d
option_of (ttl d) = with_ttl d
option_of (tags ts) = with_tags ts
option_of (tags_ttl d) = with_tags_ttl d
option_of (client_side_caching d) = with_client_side_caching d

-- The duration of the last `WithExpiration` or `WithTTL`, or the given one.
unfoldable pub last_expiration : Duration → List Setting → Duration
last_expiration d [] = d
last_expiration d (expiration d' ∷ ss) = last_expiration d' ss
last_expiration d (ttl d' ∷ ss) = last_expiration d' ss
last_expiration d (cost c ∷ ss) = last_expiration d ss
last_expiration d (synchronous_set ∷ ss) = last_expiration d ss
last_expiration d (tags ts ∷ ss) = last_expiration d ss
last_expiration d (tags_ttl t ∷ ss) = last_expiration d ss
last_expiration d (client_side_caching t ∷ ss) = last_expiration d ss

program : Unit {0}
unfolding apply_options apply_options_with_default with_cost with_synchronous_set with_ttl with_tags
    with_tags_ttl with_client_side_caching option_of last_expiration
program = tt

-- Applied over defaults, a list of the package's options sets the expiration of the last
-- `WithExpiration` or `WithTTL` in it, and keeps the default's where there is none.
pub expiration-apply_options_with_default :
    (o : Options) (ss : List Setting)
    → (apply_options_with_default o (map option_of ss)).expiration ≡ last_expiration o.expiration ss
unfolding program
expiration-apply_options_with_default o [] = refl
expiration-apply_options_with_default o (cost c ∷ ss) =
    expiration-apply_options_with_default (with_cost c o) ss
expiration-apply_options_with_default o (s ∷ ss) =
    expiration-apply_options_with_default (option_of s o) ss

-- `IsEmpty` holds exactly of options that ask for no cost, no expiration and no tags.
pub is_empty_iff :
    (o : Options)
    → (is_empty o ≡ true) ↔ ((o.cost ≡ pos 0) × (o.expiration ≡ pos 0) × (o.tags ≡ []))
unfolding is_empty
is_empty_iff o = ground arith
