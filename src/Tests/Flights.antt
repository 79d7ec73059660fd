-- ===== src/Tests/Flights.antt =====
-- Two callers of `GetOrSet` on an empty cache, and processes at the lock of a Redis server.
use nyro.Base.{ℕ, ◌≡◌, ◌≤◌, refl, false, [], some, arith}
use nyro.Base.Duration.{pos}
use nyro.Base.Text.{Text, bytes, text_eq, text_beq}
use nyro.Base.Dict.{lookup, insert}
use nyro.Errors.{ok, err, fresh}
use nyro.Keys.{Key, string}
use nyro.Options.{apply_options}
use nyro.Memory.{Adapter, get, set, to_key, ttl_of, expiry, expired}
use nyro.Memory.Loading.{Action, get_or_set, load, store}
use nyro.Memory.Flights.{
  landed, idle, finished, System, looks_up, leads, joins, checks, loads, lands, Steps, here, later,
  double_check, land, looked_up, waiting, landed,
}
use nyro.Memory.Flights.Once.{GetOrSet_loads_at_most_once}
use nyro.Memory.Flights.Progress.{Returns, GetOrSet-Returns}
use nyro.Memory.Flights.Alone.{get_or_set-Steps}

abbrev empty : Adapter ℕ
empty = record {
  entries = [];
  config = record { default_ttl = pos 50; gc_interval = pos 10 };
  closed = false;
}

abbrev key : Key
key = string (bytes "a")

program : Unit {0}
unfolding get set to_key ttl_of expiry expired lookup insert text_beq apply_options get_or_set load
    store double_check land looked_up
program = tt

abbrev start : System ℕ
start = record { cache = empty; flight = landed; pc = λ i. idle; successes = 0 }

-- Caller 0 leads a flight, which caller 1 joins; the loader returns 9, and the flight lands.
both : (s : System ℕ) × Steps key [] 70 100 start s
unfolding program
both = (
  _,
  later
      (later
        (later
          (later
            (later
              (later (later here (looks_up 0 70 (omega arith, omega arith) refl))
                (looks_up 1 71 (omega arith, omega arith) refl))
              (leads 0 refl refl))
            (joins 1 refl (λ e. cc)))
          (checks 72 (omega arith, omega arith) refl))
        (loads (ok (some 9)) refl))
      (lands 73 (ok (some 9)) (omega arith, omega arith) refl),
)

GetOrSet_loads_at_most_once_example : both.0.successes ≤ 1
unfolding ttl_of apply_options
GetOrSet_loads_at_most_once_example =
    GetOrSet_loads_at_most_once key [] 70 100 empty (omega arith) (λ h. omega arith) tt both.1

-- A state in which caller 0 has missed.
one_missed : (s : System ℕ) × Steps key [] 70 100 start s
unfolding program
one_missed = (_, later here (looks_up 0 70 (omega arith, omega arith) refl))

-- Its loader fails.
GetOrSet-Returns_example :
    (¬ ((one_missed.0.pc 0 ≡ waiting) × (one_missed.0.flight ≡ landed)))
    × Returns key [] 70 100 (err (fresh (bytes "down"))) one_missed.0 0
GetOrSet-Returns_example =
    GetOrSet-Returns key [] 70 100 (omega arith) (err (fresh (bytes "down"))) 0 one_missed.1

abbrev leading : Text → Action ℕ → Action ℕ
leading k f a = f a

get_or_set-Steps_example :
    let (result, cache') = get_or_set leading 70 71 72 key (λ a. (ok (some 9), a)) [] empty in
    (t : System ℕ) × Steps key [] 70 100 start t × (t.pc 0 ≡ finished result) × (t.cache ≡ cache')
get_or_set-Steps_example =
    get_or_set-Steps key [] 70 100 leading 70 71 72 (ok (some 9)) start 0 (λ k f a. refl)
      (omega arith, omega arith) (omega arith, omega arith) (omega arith, omega arith) refl refl
