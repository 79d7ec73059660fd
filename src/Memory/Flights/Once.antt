-- ===== src/Memory/Flights/Once.antt =====
-- The loader succeeds at most once while what it stored lasts.
use nyro.Base.{
  ℕ, ◌≤◌, ◌<◌, ◌≡◌, refl, subst, ◌&&◌, ◌⊎◌, inl, inr, true, false, List, Option, arith, eq_self,
  Option-cases,
}
use nyro.Base.Duration.{pos, negsuc, Time, add_time, after, is_positive, Duration}
use nyro.Base.Text.{text_eq}
use nyro.Base.Dict.{lookup, Distinct, insert-Distinct}
use nyro.Errors.{Result, ok, err, Result-cases}
use nyro.Keys.{Key}
use nyro.Options.{Option as CacheOption}
use nyro.Memory.{Adapter, MemoryConfig, get, set, live, evict_expired, to_key, ttl_of}
use nyro.Memory.Expiry.{get-set}
use nyro.Memory.Collect.{lookup-drop, drop-Distinct}
use nyro.Memory.Loading.{store}
use nyro.Memory.Flights.{
  Flight, landed, checking, loading, returned, System, Step, looks_up, leads, joins, checks, loads,
  lands, collects, Reach, here, later, double_check, land, succeeded, IsWithin,
}

-- A collection keeps what a `Get` at its time and a `Get` at another both find.
get-evict_live :
    {V : Type 0} (a : Adapter V) (t now : Time) (key : Key) {v : Option V}
    → Distinct a.entries
    → get t key a ≡ ok v
    → get now key a ≡ ok v
    → get now key (evict_expired t a) ≡ ok v
unfolding get evict_expired live
get-evict_live a t now key d at_t at_now = elim (Option-cases (lookup (to_key key) a.entries)) [
  | inl gone ↦ absurd (ground arith)
  | inr (e, held) ↦ rw (lookup-drop t (to_key key) a.entries d, held) (ground arith)
]

in_time :
    (d : Duration) (from t until now : Time)
    → (is_positive d ≡ true → until ≤ add_time from d)
    → from ≤ t
    → now ≤ until
    → (is_positive d && after now (add_time t d)) ≡ false
in_time (pos n) from t until now lasts h hi = ground arith
in_time (negsuc n) from t until now lasts h hi = refl

-- What is written with the options at any time from `from` on lasts until `until`.
abbrev pub Lasts : MemoryConfig → List CacheOption → Time → Time → Type 0
Lasts cfg options from until =
    is_positive (ttl_of options cfg) ≡ true → until ≤ add_time from (ttl_of options cfg)

module _ {V : Type 0} (key : Key) (options : List CacheOption) (from until : Time)
    (cfg : MemoryConfig) where
  -- The key answers throughout.
  abbrev pub Lives : Adapter V → Type 0
  Lives a = (v : Option V) × ((now : Time) → from ≤ now → now ≤ until → get now key a ≡ ok v)

  abbrev pub Counted : Flight V → Adapter V → ℕ → Type 0
  Counted landed a n = (n ≡ 0) ⊎ ((n ≡ 1) × Lives a)
  Counted checking a n = (n ≡ 0) ⊎ ((n ≡ 1) × Lives a)
  Counted loading a n = n ≡ 0
  Counted (returned r) a n = n ≡ succeeded r

  pub record Inv (s : System V) : Type 0 where
    pub distinct : Distinct s.cache.entries
    pub config : s.cache.config ≡ cfg
    pub counted : Counted s.flight s.cache s.successes

  evicted :
      (f : Flight V) (a : Adapter V) (n : ℕ) (t : Time)
      → IsWithin from until t
      → Distinct a.entries
      → Counted f a n
      → Counted f (evict_expired t a) n
  evicted f a n t within d c = go f c
    where
      stays : (n ≡ 0) ⊎ ((n ≡ 1) × Lives a) → (n ≡ 0) ⊎ ((n ≡ 1) × Lives (evict_expired t a))
      stays (inl none_yet) = inl none_yet
      stays (inr (one, (v, lives))) = inr (
        one,
        (
          v,
          λ now lo hi. get-evict_live a t now key d (lives t within.0 within.1) (lives now lo hi),
        ),
      )

      go : (f : Flight V) → Counted f a n → Counted f (evict_expired t a) n
      go landed c = stays c
      go checking c = stays c
      go loading c = c
      go (returned r) c = c

  module _ (past : 0 < from) (lasts : Lasts cfg options from until) where
    stored-Lives :
        (a : Adapter V) (t : Time) (v : Option V)
        → from ≤ t
        → a.config ≡ cfg
        → Lives (set t key v options a).1
    stored-Lives a t v h e = (
      v,
      λ now lo hi.
          let d = ttl_of options cfg in
          rw (
            get-set a key key t now v options (omega arith),
            eq_self (to_key key),
            e,
            in_time d from t until now lasts h hi,
          ),
    )

    checked :
        (s : System V) (now : Time)
        → IsWithin from until now
        → s.flight ≡ checking
        → Inv s
        → Inv (double_check (get now key s.cache) s)
    unfolding double_check
    checked s now within at inv = elim (Result-cases (get now key s.cache)) [
      | inl (v, hit) ↦
          rw (hit, double_check)
            (record { distinct = inv.distinct; config = inv.config; counted = before })
      | inr (e, miss) ↦
          rw (miss, double_check)
            (record {
              distinct = inv.distinct;
              config = inv.config;
              counted = elim before [
                | inl none_yet ↦ none_yet
                | inr (_, (v, lives)) ↦ absurd (ground (arith, lives now within.0 within.1))
              ];
            })
    ]
      where
        before : (s.successes ≡ 0) ⊎ ((s.successes ≡ 1) × Lives s.cache)
        before = subst (λ f. Counted f s.cache s.successes) at inv.counted

    landed_after :
        (s : System V) (now : Time) (r : Result (Option V))
        → IsWithin from until now
        → s.flight ≡ returned r
        → Inv s
        → Inv (land now key options r s)
    unfolding land store set
    landed_after s now (ok v) within at inv = record {
      distinct = insert-Distinct (to_key key) _ s.cache.entries inv.distinct;
      config = inv.config;
      counted = inr (
        subst (λ f. Counted f s.cache s.successes) at inv.counted,
        stored-Lives s.cache now v within.0 inv.config,
      );
    }
    landed_after s now (err e) within at inv = record {
      distinct = inv.distinct;
      config = inv.config;
      counted = inl (subst (λ f. Counted f s.cache s.successes) at inv.counted);
    }

    Step-Inv : {s t : System V} → Step key options from until s t → Inv s → Inv t
    unfolding evict_expired
    Step-Inv (looks_up i now within idle) inv = record {
      distinct = inv.distinct;
      config = inv.config;
      counted = inv.counted;
    }
    Step-Inv {s} (leads i missed at) inv = record {
      distinct = inv.distinct;
      config = inv.config;
      counted = subst (λ f. Counted f s.cache s.successes) at inv.counted;
    }
    Step-Inv (joins i missed at) inv = record {
      distinct = inv.distinct;
      config = inv.config;
      counted = inv.counted;
    }
    Step-Inv {s} (checks now within at) inv = checked s now within at inv
    Step-Inv {s} (loads r at) inv =
        let none_yet : s.successes ≡ 0 =
          subst (λ f. Counted f s.cache s.successes) at inv.counted in
        record { distinct = inv.distinct; config = inv.config; counted = omega arith }
    Step-Inv {s} (lands now r within at) inv = landed_after s now r within at inv
    Step-Inv {s} (collects now within) inv = record {
      distinct = drop-Distinct now s.cache.entries inv.distinct;
      config = inv.config;
      counted = evicted s.flight s.cache s.successes now within inv.distinct inv.counted;
    }

    Reach-Inv :
        {a : Adapter V} {s : System V}
        → Distinct a.entries
        → a.config ≡ cfg
        → Reach key options from until a s
        → Inv s
    Reach-Inv d e here = record { distinct = d; config = e; counted = inl refl }
    Reach-Inv d e (later r st) = Step-Inv st (Reach-Inv d e r)

    Counted-le : (f : Flight V) (a : Adapter V) (n : ℕ) → Counted f a n → n ≤ 1
    Counted-le landed a n (inl e) = omega arith
    Counted-le landed a n (inr (e, _)) = omega arith
    Counted-le checking a n (inl e) = omega arith
    Counted-le checking a n (inr (e, _)) = omega arith
    Counted-le loading a n e = omega arith
    Counted-le (returned (ok v)) a n e = omega arith
    Counted-le (returned (err x)) a n e = omega arith

-- However any number of `GetOrSet` calls of one key interleave, also with the collector, the loader
-- returns a value at most once, provided that the calls fall into a time in which what is
-- written with their options lasts, and that nothing else writes or deletes the key.
pub GetOrSet_loads_at_most_once :
    {V : Type 0} (key : Key) (options : List CacheOption) (from until : Time) (a : Adapter V)
    → 0 < from
    → Lasts a.config options from until
    → Distinct a.entries
    → {s : System V} → Reach key options from until a s
    → s.successes ≤ 1
GetOrSet_loads_at_most_once key options from until a past lasts d {s} r =
    Counted-le key options from until a.config past lasts s.flight s.cache s.successes
      (Reach-Inv key options from until a.config past lasts d refl r).counted
