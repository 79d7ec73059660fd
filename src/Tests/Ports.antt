-- ===== src/Tests/Ports.antt =====
-- The adapters that delegate to a cart, and the typed cache over adapters.
use nyro.Base.{ℕ, nat_beq, ◌≡◌, refl, ◌⊎◌, [], ◌∷◌, Option, none, some, if◌then◌else◌, arith}
use nyro.Base.Duration.{pos, negsuc}
use nyro.Base.Text.{bytes, text_eq}
use nyro.Errors.{Error, fresh, wrap, ok, err}
use nyro.Keys.{string, key_eq}
use nyro.Memory
use nyro.Memory.{ttl_of}
use nyro.Carts.Guard.{Retry, received}
use nyro.Carts.Json.{Json}
use nyro.Carts.Redis.Reference.{Store, contents, reference, reference-Serves}
use nyro.Carts.Redis
use nyro.Adapters.RespCache.{set as resp_set}
use nyro.Adapters.Resp.{Adapter}
use nyro.Adapters.OverRedis.{Run, redis_cache}
use nyro.Config.{cache_memory, memory_config}
use nyro.Config.Registry.{Constructors, registered}
use nyro.Client as ClientModule
use nyro.Client.{Client, or_new}
use nyro.Client.Wiring.{with_memory, client_over_memory}
use nyro.Options.{with_ttl}
use nyro.Memory.{MemoryConfig}
use nyro.Typed.{GoType, get, set}
use nyro.Typed.Reading.{get-set_typed_redis}

abbrev codec : Json ℕ
codec = record { marshal = λ v. ok (bytes "{}"); unmarshal = λ t. ok (some 3); raw = λ t. 0 }

abbrev patient : Retry Store ℕ
patient op w = (err (fresh (bytes "gave up")), w)

-- A type whose values are themselves as an `any`, but that a 3 is not asserted to be.
assert : ℕ → Option ℕ
assert n = if nat_beq n 3 then none else some n

abbrev number : GoType ℕ ℕ
unfolding assert
number = record {
  zero = 0;
  to_any = some;
  assert = assert;
  marshal = λ v. ok (bytes "{}");
  unmarshal = λ t. ok 8;
}

abbrev fresh_cache : Memory.Adapter ℕ
fresh_cache = Memory.new (record { default_ttl = pos 0; gc_interval = pos 0 })

-- The other adapters are not reached.
abbrev refusing : Constructors (Memory.Adapter ℕ) ℕ
refusing = record {
  redis = λ c w. (err (fresh (bytes "redis: ping failed")), w);
  valkey = λ c w. (err (fresh (bytes "valkey: ping failed")), w);
  dragonfly = λ c w. (err (fresh (bytes "dragonfly: ping failed")), w);
  key_db = λ c w. (err (fresh (bytes "keydb: ping failed")), w);
  memory = λ c w. (err (fresh (bytes "no memory")), w);
}

abbrev a_minute : MemoryConfig
a_minute = record { default_ttl = pos 60; gc_interval = pos 0 }

client_over_memory_example :
    (c : Client (Memory.Adapter ℕ) ℕ) × (ClientModule.new
        (registered (with_memory number refusing (λ k f. f) 5))
        (λ p d. err (fresh (bytes "no environment")))
        cache_memory
        (memory_config a_minute)
        none
        fresh_cache
      ≡ (ok c, Memory.new a_minute))
    × (c.config_mgr ≡ or_new none)
    × ((get number c.cache
          (string (bytes "k"))
          (set number c.cache
            (string (bytes "k"))
            7
            (with_ttl (negsuc 0) ∷ [])
            (Memory.new a_minute)).1).0
        ≡ ok 7)
unfolding assert
client_over_memory_example =
    client_over_memory number refusing (λ k f. f) 5 (λ p d. err (fresh (bytes "no environment")))
      a_minute none (string (bytes "k")) 7 (with_ttl (negsuc 0) ∷ []) fresh_cache (omega arith)
      (7, refl, refl)

abbrev run : Run Store ℕ
run = record {
  retry = patient;
  flight = λ k f. f;
  selected = received;
  value = bytes "mine";
  before = [];
  after = [];
  again = λ items. [];
}

abbrev adapter : Adapter
adapter = record {
  cart_config = record { lock_ttl = pos 10; lock_max_wait = pos 3; lock_renewal_interval = pos 0 };
  config = record { default_ttl = pos 0; lock_ttl = pos 0; lock_max_wait = pos 0 };
}

abbrev after_set : Store
after_set = (set number (redis_cache reference codec run adapter) (string (bytes "k")) 8 [] []).1

get-set_typed_redis_example :
    ((get number (redis_cache reference codec run adapter) (string (bytes "k")) after_set).0 ≡ ok 8)
    ⊎ ((e : Error) × ((get number
            (redis_cache reference codec run adapter)
            (string (bytes "k"))
            after_set).0
          ≡ err (wrap (bytes "redis get failed") e)))
unfolding assert set redis_cache reference resp_set Redis.set
get-set_typed_redis_example =
    get-set_typed_redis number reference codec run adapter contents reference-Serves
      (string (bytes "k")) 8 (bytes "{}") (bytes "{}") 3 [] [] (refl, refl) refl refl refl refl
