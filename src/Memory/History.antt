-- ===== src/Memory/History.antt =====
-- The cache as a client sees it: what was written last, until its deadline. The specification
-- knows nothing of entries, of the map or of the collector.
use nyro.Base.{
  ◌≤◌, ◌<◌, ◌≡◌, ◌∙◌, refl, List, [], ◌∷◌, Option, none, some, if◌then◌else◌, arith, ◌==◌, All,
}
use nyro.Base.Duration.{Duration, Time, add_time, after, is_positive}
use nyro.Base.Text.{Text, text_eq}
use nyro.Base.Dict.{lookup, Distinct, insert-Distinct, delete-Distinct}
use nyro.Errors.{sentinel, err_not_found, Result, ok, err}
use nyro.Keys.{Key}
use nyro.Options.{Option as CacheOption}
use nyro.Memory.{
  Adapter, MemoryConfig, new, set, delete_key, clear, evict_expired, get, to_key, ttl_of,
}
use nyro.Memory.Expiry.{get-set, get-delete_key}
use nyro.Memory.Collect.{drop-Distinct, get-evict_expired}

pub data Call (V : Type 0) : Type 0 where
  sets : Time → Key → Option V → List CacheOption → Call V
  deletes : Key → Call V
  clears : Call V
  collects : Time → Call V

abbrev pub deadline : Time → Duration → Option Time
deadline t d = if is_positive d then some (add_time t d) else none

module _ {V : Type 0} where
  unfoldable pub step : Call V → Adapter V → Adapter V
  step (sets t key v options) a = (set t key v options a).1
  step (deletes key) a = (delete_key key a).1
  step clears a = (clear a).1
  step (collects t) a = evict_expired t a

  -- The latest call stands first.
  unfoldable pub run : List (Call V) → Adapter V → Adapter V
  unfolding step
  run [] a = a
  run (c ∷ earlier) a = step c (run earlier a)

  -- The time of a call: past the zero of the clock if it writes, and no later than `now`.
  abbrev pub IsPast : Time → Call V → Type 0
  IsPast now (sets t key v options) = (0 < t) × (t ≤ now)
  IsPast now (collects t) = t ≤ now
  IsPast now (deletes key) = Unit
  IsPast now clears = Unit

  -- The value written last under a string, with its deadline.
  unfoldable pub last_write : MemoryConfig → Text → List (Call V) → Option (Option V × Option Time)
  last_write cfg k [] = none
  last_write cfg k (sets t key v options ∷ earlier) =
      if to_key key == k
      then some (v, deadline t (ttl_of options cfg))
      else last_write cfg k earlier
  last_write cfg k (deletes key ∷ earlier) =
      if to_key key == k then none else last_write cfg k earlier
  last_write cfg k (clears ∷ earlier) = none
  last_write cfg k (collects t ∷ earlier) = last_write cfg k earlier

  unfoldable pub answer : Time → Option (Option V × Option Time) → Result (Option V)
  answer now none = err (sentinel err_not_found)
  answer now (some (v, none)) = ok v
  answer now (some (v, some until)) = if after now until then err (sentinel err_not_found) else ok v

  step-Distinct : (c : Call V) (a : Adapter V) → Distinct a.entries → Distinct (step c a).entries
  unfolding step set delete_key clear evict_expired
  step-Distinct (sets t key v options) a d = insert-Distinct (to_key key) _ a.entries d
  step-Distinct (deletes key) a d = delete-Distinct (to_key key) a.entries d
  step-Distinct clears a d = tt
  step-Distinct (collects t) a d = drop-Distinct t a.entries d

  step-config : (c : Call V) (a : Adapter V) → (step c a).config ≡ a.config
  unfolding step set delete_key clear evict_expired
  step-config (sets t key v options) a = refl
  step-config c a = refl

  -- Every history of calls keeps the keys of the map distinct and the configuration as it was.
  pub run-Distinct :
      (calls : List (Call V)) (a : Adapter V)
      → Distinct a.entries
      → Distinct (run calls a).entries × ((run calls a).config ≡ a.config)
  unfolding run
  run-Distinct [] a d = (d, refl)
  run-Distinct (c ∷ earlier) a d =
      let (d', e) = run-Distinct earlier a d in
      (step-Distinct c (run earlier a) d', step-config c (run earlier a) ∙ e)

  new-Distinct : (cfg : MemoryConfig) (a : Adapter V) → a ≡ new cfg → Distinct a.entries
  unfolding new
  new-Distinct cfg a e = rw e tt

  get-new :
      (cfg : MemoryConfig) (now : Time) (key : Key)
      → get now key (new {V = V} cfg) ≡ err (sentinel err_not_found)
  unfolding get new lookup
  get-new cfg now key = refl

  get-clear :
      (a : Adapter V) (now : Time) (key : Key)
      → get now key (clear a).1 ≡ err (sentinel err_not_found)
  unfolding get clear lookup
  get-clear a now key = refl

  -- Whatever was written, deleted, cleared and collected, at times up to `now`, a `Get` returns the
  -- value written last under its string and not deleted since, until its deadline, and otherwise
  -- `ErrNotFound`.
  pub get-run :
      (cfg : MemoryConfig) (calls : List (Call V)) (now : Time) (key : Key)
      → All (IsPast now) calls
      → get now key (run calls (new cfg))
        ≡ answer now (last_write (new {V = V} cfg).config (to_key key) calls)
  unfolding run last_write answer
  get-run cfg [] now key h = get-new cfg now key
  get-run cfg (sets t k v options ∷ earlier) now key h = ground (
    arith,
    get-set (run earlier (new cfg)) k key t now v options,
    get-run cfg earlier now key h.1,
    (run-Distinct earlier (new {V = V} cfg) (new-Distinct cfg _ refl)).1,
  )
  get-run cfg (deletes k ∷ earlier) now key h =
      ground
        (arith, get-delete_key (run earlier (new cfg)) k key 0 now, get-run cfg earlier now key h.1)
  get-run cfg (clears ∷ earlier) now key h = get-clear (run earlier (new cfg)) now key
  get-run cfg (collects t ∷ earlier) now key h =
      get-evict_expired (run earlier (new cfg)) t now key
        (run-Distinct earlier (new cfg) (new-Distinct cfg _ refl)).0 h.0
      ∙ get-run cfg earlier now key h.1
