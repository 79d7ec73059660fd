-- ===== src/Tests/Memory.antt =====
-- The in-memory adapter at concrete inputs.
use nyro.Base.{ℕ, ◌≡◌, refl, false, List, [], ◌∷◌, some, arith}
use nyro.Base.Duration.{pos}
use nyro.Base.Text.{bytes, text_eq, text_beq}
use nyro.Base.Dict.{lookup, insert, Distinct}
use nyro.Errors.{sentinel, err_not_found, ok, err, is}
use nyro.Keys.{Key, string, key_eq}
use nyro.Memory.{
  Adapter, MemoryConfig, get, set, delete_key, clear, new, to_key, ttl_of, expiry, expired,
  evict_expired,
}
use nyro.Memory.Collect.{get-evict_expired}
use nyro.Memory.History.{Call, sets, deletes, collects, clears, run, last_write, answer, get-run}
use nyro.Memory.Bulk.{get_multi, set_multi, delete_multi, last_item}
use nyro.Memory.Loading.{get_or_set}
use nyro.Options.{apply_options, with_ttl}

abbrev config : MemoryConfig
config = record { default_ttl = pos 50; gc_interval = pos 10 }

-- "a" expires at 60, "b" never.
abbrev cache : Adapter ℕ
cache = record {
  entries =
      (bytes "a", record { value = some 1; expires_at = 60 })
      ∷ (bytes "b", record { value = some 2; expires_at = 0 })
      ∷ [];
  config = config;
  closed = false;
}

abbrev a_key : Key
a_key = string (bytes "a")

abbrev b_key : Key
b_key = string (bytes "b")

program : Unit {0}
unfolding get set delete_key clear new to_key ttl_of expiry expired evict_expired run last_write
    answer lookup insert text_beq get_multi set_multi delete_multi last_item get_or_set
    apply_options with_ttl is
program = tt

-- TestAdapter_TTLExpiry, in nanoseconds
ttl_expiry :
    (get 50 a_key (set 1 a_key (some 7) (with_ttl (pos 50) ∷ []) cache).1 ≡ ok (some 7))
    × (get 100 a_key (set 1 a_key (some 7) (with_ttl (pos 50) ∷ []) cache).1
        ≡ err (sentinel err_not_found))
unfolding program
ttl_expiry = (refl, refl)

cache-Distinct : Distinct cache.entries
unfolding program
cache-Distinct = (refl, (refl, tt))

abbrev history : List (Call ℕ)
history =
    collects 40
    ∷ sets 20 b_key (some 5) (with_ttl (pos 15) ∷ [])
    ∷ deletes b_key
    ∷ sets 10 a_key (some 4) []
    ∷ clears
    ∷ []

get-run_example :
    get 45 a_key (run history (new config))
    ≡ answer 45 (last_write (new {V = ℕ} config).config (bytes "a") history)
unfolding to_key
get-run_example = get-run config history 45 a_key (omega arith)

answers : answer 45 (last_write (new {V = ℕ} config).config (bytes "a") history) ≡ ok (some 4)
unfolding program
answers = refl

get-evict_expired_example : get 80 b_key (evict_expired 70 cache) ≡ get 80 b_key cache
get-evict_expired_example = get-evict_expired cache 70 80 b_key cache-Distinct (omega arith)
