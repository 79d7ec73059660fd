-- ===== src/Memory/Flights/Progress.antt =====
-- No caller of `GetOrSet` is left behind.
use nyro.Base.{
  ℕ, ◌+◌, ◌≤◌, ◌≡◌, ◌≢◌, refl, ◌⊎◌, inl, inr, List, Option, arith, ◌==◌, eq_self, nat_eq,
  Bool-cases,
}
use nyro.Base.Duration.{Time}
use nyro.Errors.{Result, ok, err}
use nyro.Keys.{Key}
use nyro.Options.{Option as CacheOption}
use nyro.Memory.{Adapter, get}
use nyro.Memory.Loading.{store}
use nyro.Memory.Flights.{
  Flight, landed, checking, loading, returned, Pc, idle, missed, waiting, finished, System, Step,
  looks_up, leads, joins, checks, loads, lands, collects, Reach, here, later, double_check,
  succeeded, land, looked_up, update, received,
}

module _ {V : Type 0} (key : Key) (options : List CacheOption) (from until : Time) where
  -- Who waits has a flight to wait for.
  abbrev Served : System V → Type 0
  Served s = (i : ℕ) → s.pc i ≡ waiting → s.flight ≢ landed

  -- A delivery leaves nobody waiting.
  received_waiting : (r : Result (Option V)) (p : Pc V) → received r p ≢ waiting
  received_waiting r idle h = cc
  received_waiting r missed h = cc
  received_waiting r waiting h = cc
  received_waiting r (finished x) h = cc

  update_waiting :
      (f : ℕ → Pc V) (i j : ℕ) (p : Pc V)
      → update f i p j ≡ waiting
      → (p ≡ waiting) ⊎ (f j ≡ waiting)
  update_waiting f i j p h = elim (Bool-cases (i == j)) [
    | inl same ↦ inl (ground arith)
    | inr other ↦ inr (ground arith)
  ]

  looked_up_waiting : (r : Result (Option V)) → looked_up r ≢ waiting
  unfolding looked_up
  looked_up_waiting (ok v) h = cc
  looked_up_waiting (err e) h = cc

  double_check-Served : (r : Result (Option V)) (s : System V) → Served (double_check r s)
  unfolding double_check
  double_check-Served (ok v) s j h = absurd (received_waiting (ok v) (s.pc j) h)
  double_check-Served (err e) s j h = λ x. cc

  Step-Served : {s t : System V} → Step key options from until s t → Served s → Served t
  unfolding land
  Step-Served {s} (looks_up i now within at) served j h =
      elim (update_waiting s.pc i j (looked_up (get now key s.cache)) h) [
        | inl x ↦ absurd (looked_up_waiting (get now key s.cache) x)
        | inr x ↦ served j x
      ]
  Step-Served (leads i at f) served j h = λ e. cc
  Step-Served (joins i at f) served j h = f
  Step-Served {s} (checks now within at) served j h =
      double_check-Served (get now key s.cache) s j h
  Step-Served (loads r at) served j h = λ e. cc
  Step-Served {s} (lands now r within at) served j h =
      absurd (received_waiting (store now key options (r, s.cache)).0 (s.pc j) h)
  Step-Served (collects now within) served j h = served j h

  Reach-Served : {a : Adapter V} {s : System V} → Reach key options from until a s → Served s
  Reach-Served here = λ j h. cc
  Reach-Served (later r st) = Step-Served st (Reach-Served r)

  -- A step of the caller `i` itself, or of the flight, whose loader returns `given`.
  abbrev pub IsOwn :
      Result (Option V) → ℕ → {s t : System V} → Step key options from until s t → Type 0
  IsOwn given i (looks_up j now within at) = j ≡ i
  IsOwn given i (leads j at f) = j ≡ i
  IsOwn given i (joins j at f) = j ≡ i
  IsOwn given i (checks now within at) = Unit
  IsOwn given i (loads r at) = r ≡ given
  IsOwn given i (lands now r within at) = Unit
  IsOwn given i (collects now within) = ⊥

  pub data OwnSteps (given : Result (Option V)) (i : ℕ) (s : System V) : System V → Type 0 where
    rest : OwnSteps given i s s
    step :
        {t u : System V}
        → OwnSteps given i s t
        → (st : Step key options from until t u) → IsOwn given i st
        → OwnSteps given i s u

  -- The caller comes to its result without a step of any other.
  abbrev pub Returns : Result (Option V) → System V → ℕ → Type 0
  Returns given s i =
      (t : System V) × OwnSteps given i s t × (r : Result (Option V)) × (t.pc i ≡ finished r)

  module _ (open_ : from ≤ until) (given : Result (Option V)) (i : ℕ) where
    joined : {s t u : System V} → OwnSteps given i s t → OwnSteps given i t u → OwnSteps given i s u
    joined p rest = p
    joined p (step q st own) = step (joined p q) st own

    first :
        {s t : System V} (st : Step key options from until s t)
        → IsOwn given i st
        → OwnSteps given i s t
    first st own = step rest st own

    then_ : {s t : System V} → OwnSteps given i s t → Returns given t i → Returns given s i
    then_ p (u, q, r, e) = (u, joined p q, r, e)

    returned-Returns :
        (s : System V) (r : Result (Option V))
        → s.pc i ≡ waiting
        → s.flight ≡ returned r
        → Returns given s i
    unfolding land
    returned-Returns s r h at = (
      land from key options r s,
      first (lands from r ((omega arith), open_) at) tt,
      (store from key options (r, s.cache)).0,
      rw h,
    )

    loading-Returns : (s : System V) → s.pc i ≡ waiting → s.flight ≡ loading → Returns given s i
    loading-Returns s h at =
        let s' : System V = record s {
          flight = returned given;
          successes = s.successes + succeeded given;
        } in
        then_ (first (loads given at) refl) (returned-Returns s' given h refl)

    checking-Returns : (s : System V) → s.pc i ≡ waiting → s.flight ≡ checking → Returns given s i
    unfolding double_check
    checking-Returns s h at = go (get from key s.cache) refl
      where
        s' : System V
        s' = double_check (get from key s.cache) s

        checked : OwnSteps given i s s'
        checked = first (checks from ((omega arith), open_) at) tt

        go : (r : Result (Option V)) → get from key s.cache ≡ r → Returns given s i
        go (ok v) e = (s', checked, ok v, rw (e, double_check, h))
        go (err x) e =
            then_ checked (loading-Returns s' (rw (e, double_check) h) (rw (e, double_check)))

    waiting-Returns :
        (s : System V) (f : Flight V)
        → s.pc i ≡ waiting
        → s.flight ≡ f
        → f ≢ landed
        → Returns given s i
    waiting-Returns s landed h e x = absurd (x refl)
    waiting-Returns s checking h e x = checking-Returns s h e
    waiting-Returns s loading h e x = loading-Returns s h e
    waiting-Returns s (returned r) h e x = returned-Returns s r h e

    missed-Returns : (s : System V) → s.pc i ≡ missed → Returns given s i
    missed-Returns s h = go s.flight refl
      where
        waits : update s.pc i waiting i ≡ waiting
        waits = rw (eq_self i)

        joining : (f : Flight V) → s.flight ≡ f → f ≢ landed → Returns given s i
        joining f e x =
            then_ (first (joins i h (rw e x)) refl)
              (waiting-Returns (record s { pc = update s.pc i waiting }) f waits e x)

        go : (f : Flight V) → s.flight ≡ f → Returns given s i
        go landed e = then_ (first (leads i h e) refl) (
            checking-Returns (record s { flight = checking; pc = update s.pc i waiting }) waits
              refl)
        go checking e = joining checking e (λ x. cc)
        go loading e = joining loading e (λ x. cc)
        go (returned r) e = joining (returned r) e (λ x. cc)

    idle-Returns : (s : System V) → s.pc i ≡ idle → Returns given s i
    unfolding looked_up
    idle-Returns s h = go (get from key s.cache) refl
      where
        s' : System V
        s' = record s { pc = update s.pc i (looked_up (get from key s.cache)) }

        looked : OwnSteps given i s s'
        looked = first (looks_up i from ((omega arith), open_) h) refl

        go : (r : Result (Option V)) → get from key s.cache ≡ r → Returns given s i
        go (ok v) e = (s', looked, ok v, rw (e, looked_up, eq_self i))
        go (err x) e = then_ looked (missed-Returns s' (rw (e, looked_up, eq_self i)))

    Returns-from : (s : System V) → Served s → (p : Pc V) → s.pc i ≡ p → Returns given s i
    Returns-from s served idle e = idle-Returns s e
    Returns-from s served missed e = missed-Returns s e
    Returns-from s served waiting e = waiting-Returns s s.flight e refl (served i e)
    Returns-from s served (finished r) e = (s, rest, r, e)

    -- In whatever state any interleaving of `GetOrSet` calls of one key and of the collector has come
    -- to, a caller that waits has a flight that is not over, and each caller can come to its result,
    -- whatever the loader returns, by steps of its own and of the flight only: without a step of
    -- another caller, and so without a flight that another starts later.
    pub GetOrSet-Returns :
        {a : Adapter V} {s : System V}
        → Reach key options from until a s
        → (¬ ((s.pc i ≡ waiting) × (s.flight ≡ landed))) × Returns given s i
    GetOrSet-Returns {s = s} r =
        (λ h. Reach-Served r i h.0 h.1, Returns-from s (Reach-Served r) (s.pc i) refl)
