-- ===== src/Memory/Flights/Alone.antt =====
-- The code of `GetOrSet` is a caller of `Flights`: what it does alone is a run there.
use nyro.Base.{ℕ, ◌+◌, ◌≡◌, refl, inl, inr, List, Option, eq_self, nat_eq}
use nyro.Base.Duration.{Time}
use nyro.Base.Text.{Text}
use nyro.Errors.{Result, Result-cases}
use nyro.Keys.{Key}
use nyro.Options.{Option as CacheOption}
use nyro.Memory.{get}
use nyro.Memory.Loading.{Leads, Action, get_or_set, load}
use nyro.Memory.Flights.{
  landed, checking, returned, idle, waiting, finished, System, looks_up, leads, checks, loads,
  lands, Steps, here, later, double_check, land, succeeded, looked_up, update, IsWithin,
}

module _ {V : Type 0} (key : Key) (options : List CacheOption) (from until : Time) where
  -- A `GetOrSet` whose loader returns `r` and leaves the cache alone, with no flight of the key under
  -- way, is a run of one caller in the interleavings: it ends there with the same result and the
  -- same cache.
  pub get_or_set-Steps :
      (flight : Text → Action V → Action V) (t₁ t₂ t₃ : Time) (r : Result (Option V)) (s : System V)
      (i : ℕ)
      → Leads flight
      → IsWithin from until t₁
      → IsWithin from until t₂
      → IsWithin from until t₃
      → s.flight ≡ landed
      → s.pc i ≡ idle
      → let (result, cache') = get_or_set flight t₁ t₂ t₃ key (λ a. (r, a)) options s.cache in
        (t : System V) × Steps key options from until s t
        × (t.pc i ≡ finished result)
        × (t.cache ≡ cache')
  unfolding get_or_set load looked_up double_check land
  get_or_set-Steps flight t₁ t₂ t₃ r s i leads_ in₁ in₂ in₃ free ready =
      elim (Result-cases (get t₁ key s.cache)) [
        | inl (v, hit) ↦
            (s₁, looking, rw (hit, get_or_set, looked_up, eq_self i), rw (hit, get_or_set))
        | inr (e, miss) ↦
            let second : Steps key options from until s s₃ =
              later (later looking (leads i (rw (miss, looked_up, eq_self i)) free))
                (checks t₂ in₂ refl) in
            elim (Result-cases (get t₂ key s.cache)) [
              | inl (v, hit) ↦ (
                s₃,
                second,
                rw (miss, get_or_set, leads_, hit, load, double_check, eq_self i),
                rw (miss, get_or_set, leads_, hit, load, double_check),
              )
              | inr (e', miss') ↦ (
                land t₃ key options r s₄,
                later (later second (loads r (rw (miss', double_check)))) (lands t₃ r in₃ refl),
                rw (miss, get_or_set, leads_, miss', load, double_check, eq_self i),
                rw (miss, get_or_set, leads_, miss', load, double_check),
              )
            ]
      ]
    where
      s₁ : System V
      s₁ = record s { pc = update s.pc i (looked_up (get t₁ key s.cache)) }

      looking : Steps key options from until s s₁
      looking = later here (looks_up i t₁ in₁ ready)

      s₂ : System V
      s₂ = record s₁ { flight = checking; pc = update s₁.pc i waiting }

      s₃ : System V
      s₃ = double_check (get t₂ key s.cache) s₂

      s₄ : System V
      s₄ = record s₃ { flight = returned r; successes = s₃.successes + succeeded r }
