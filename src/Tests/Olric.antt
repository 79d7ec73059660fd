-- ===== src/Tests/Olric.antt =====
-- The Olric cart over the grid in memory.
use nyro.Base.{List, ◌∷◌, inl, inr, ℕ, ◌≡◌, refl, Bool, true, [], some}
use nyro.Base.Duration.{pos}
use nyro.Base.Text.{Text, bytes, text_eq, text_beq}
use nyro.Base.Dict.{lookup, insert, delete}
use nyro.Errors.{fresh, not_found_with_cause, as_not_found, Result, ok}
use nyro.Carts.Olric.{OlricCart, Action, default_olric_cart_config, get, in_world}
use nyro.Carts.Olric.Locks.{acquire_lock, release_lock, extend_lock, load_once}
use nyro.Carts.Olric.Ownership.{Released, load_once-Released, release_lock-frees_later_holder}
use nyro.Carts.Olric.Reference.{Grid, reference, entries_of, reference-Serves_olric}
use nyro.Carts.Olric
use nyro.Carts.Olric.Runs.{reads_replayed_olric}
use nyro.Carts.Contract.{Sees, SeesFlag}
use nyro.Carts.Contract.Runs.{Call, set, set_multi, exists, clear, run, replay}
use nyro.Adapters.Olric.{olric_cart}

abbrev key : Text
key = bytes "a"

abbrev cart : OlricCart Grid (Unit {0}) (Text × ℕ)
cart = record { dmap = tt; locks = []; world = record { entries = []; tokens = []; next = 1 } }

abbrev loader : Action Grid (Unit {0}) (Text × ℕ) ℕ
loader s = (ok (some 3), s)

-- The lock of `a` expires.
abbrev expire : Grid → Grid
expire w = record w { tokens = [] }

program : Unit {0}
unfolding lookup text_beq insert delete reference get in_world acquire_lock release_lock extend_lock
    as_not_found not_found_with_cause
program = tt

load_once-Released_example :
    Released reference key
      (key, 1)
      (load_once reference default_olric_cart_config
        (λ w. w)
        (bytes "mine")
        key
        loader
        (pos 60)
        (pos 10)
        cart).1
unfolding program
load_once-Released_example =
    load_once-Released reference key loader (pos 60) (λ s. refl) default_olric_cart_config (λ w. w)
      (bytes "mine") (pos 10) (not_found_with_cause (fresh (bytes "key not found"))) (key, 1) cart
      refl refl refl

abbrev acquired : OlricCart Grid (Unit {0}) (Text × ℕ)
acquired = (acquire_lock reference default_olric_cart_config key (pos 10) (bytes "first") cart).1

abbrev taken_over : Result (Text × Bool) × OlricCart Grid (Unit {0}) (Text × ℕ)
taken_over =
    acquire_lock reference default_olric_cart_config key (pos 10) (bytes "second")
      (record acquired { world = expire acquired.world })

release_lock-frees_later_holder_example :
    (taken_over.0 ≡ ok (bytes "second", true))
    × Released reference key (key, 2) (release_lock reference key (bytes "first") taken_over.1).1
unfolding program
release_lock-frees_later_holder_example =
    release_lock-frees_later_holder reference default_olric_cart_config key (bytes "first")
      (bytes "second") (pos 10) (key, 1) (key, 2) expire cart refl refl

-- A clear replaces the map between two writes.
abbrev calls : List (Call ℕ)
calls =
    set key (some 9) (pos 5)
    ∷ clear
    ∷ set_multi ((key, some 8) ∷ (bytes "b", some 7) ∷ []) (pos 5)
    ∷ exists (bytes "b")
    ∷ []

reads_replayed_olric_example :
    let s' =
      run
        (olric_cart reference default_olric_cart_config (λ k f. f) (λ w. w) (bytes "mine"))
        calls
        cart in
    Sees (get reference key s').0 (replay (λ v. v) calls (entries_of tt cart.world) key)
    × SeesFlag
        (Olric.exists reference key s').0
        (replay (λ v. v) calls (entries_of tt cart.world) key)
unfolding program Olric.set Olric.set_multi Olric.clear Olric.done_or
reads_replayed_olric_example =
    reads_replayed_olric reference entries_of (λ v. v) reference-Serves_olric
      default_olric_cart_config (λ k f. f) (λ w. w) (bytes "mine") calls key cart
      (inr refl, (inr refl, (inr refl, (inl refl, tt))))
