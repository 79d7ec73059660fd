-- ===== src/Tests/Pebble.antt =====
-- The Pebble cart and adapter over the database in memory.
use nyro.Base.{ℕ, ◌≡◌, refl, ◌⊎◌, true, List, [], ◌∷◌, Option, none, some}
use nyro.Base.Duration.{pos, Time}
use nyro.Base.Text.{Text, bytes, text_eq, text_beq}
use nyro.Base.Dict.{lookup, insert}
use nyro.Errors.{Error, wrap, not_found_with_cause, as_not_found, Result, ok, err, fresh}
use nyro.Keys.{string, to_string}
use nyro.Options.{apply_options}
use nyro.Carts.Guard.{Action}
use nyro.Carts.Redis.Server.{write}
use nyro.Carts.Redis.Reference.{Store, contents}
use nyro.Carts.Pebble.{
  EntryJson, CacheEntry, get, set, exists, set_multi, entry_of, done_or, check_expiration,
}
use nyro.Carts.Pebble.Server.{apply, Pending}
use nyro.Carts.Pebble.Laws.{
  answer_of, Writes, get-exists_stored, get-set_pebble, set_multi_pebble_all_or_none,
}
use nyro.Carts.Pebble.Reference.{reference, reference-Stores}
use nyro.Adapters.Pebble
use nyro.Adapters.Pebble.{Adapter, ttl_for}
use nyro.Adapters.Pebble.Loading.{get-get_or_set}

encode_value : Time → Option ℕ → Text
encode_value t none = t ∷ []
encode_value t (some n) = t ∷ n ∷ []

encode : CacheEntry ℕ → Result Text
encode entry = ok (encode_value entry.expiration entry.value)

parse : Text → Result (CacheEntry ℕ)
parse (t ∷ []) = ok (record { value = none; expiration = t })
parse (t ∷ n ∷ []) = ok (record { value = some n; expiration = t })
parse s = err (fresh (bytes "invalid character"))

abbrev codec : EntryJson ℕ
unfolding encode encode_value parse
codec = record { marshal = encode; unmarshal = parse }

abbrev a_text : Text
a_text = bytes "a"

abbrev store : Store
store = (bytes "a", 50 ∷ 7 ∷ []) ∷ []

program : Unit {0}
unfolding encode encode_value parse get set exists done_or check_expiration lookup insert text_beq
    to_string ttl_for not_found_with_cause as_not_found reference Pebble.get Pebble.set
    apply_options
program = tt

-- At time 60 the entry of `a` has expired.
abbrev entry : CacheEntry ℕ
entry = record { value = some 7; expiration = 50 }

get-exists_stored_example :
    (((get reference codec 60 a_text store).0 ≡ answer_of 60 entry)
      ⊎ ((e : Error) × ((get reference codec 60 a_text store).0
            ≡ err (wrap (bytes "pebble: get failed") e))))
    × (((exists reference codec a_text store).0 ≡ ok true)
        ⊎ ((e : Error) × ((exists reference codec a_text store).0
              ≡ err (wrap (bytes "pebble: exists check failed") e))))
unfolding program
get-exists_stored_example =
    get-exists_stored reference codec contents (λ b. b) reference-Stores 60 a_text (50 ∷ 7 ∷ [])
      entry store refl refl

get-set_pebble_example :
    let w' = (set reference codec 60 a_text (some 8) (pos 5) store).1 in
    (contents w' ≡ write a_text (65 ∷ 8 ∷ []) (contents store))
    × (((get reference codec 64 a_text w').0 ≡ answer_of 64 (entry_of 60 (some 8) (pos 5)))
        ⊎ ((e : Error) × ((get reference codec 64 a_text w').0
              ≡ err (wrap (bytes "pebble: get failed") e))))
unfolding program
get-set_pebble_example =
    get-set_pebble reference codec contents (λ b. b) reference-Stores 60 64 a_text (65 ∷ 8 ∷ [])
      (some 8) (pos 5) store refl refl refl

abbrev items : List (Time × Text × Option ℕ)
items = (60, bytes "x", some 1) ∷ (61, bytes "y", none) ∷ []

set_multi_pebble_all_or_none_example :
    let (r, w') = set_multi reference codec items (pos 5) store in
    ((contents w' ≡ contents store) × ((e : Error) × (r ≡ err e)))
    ⊎ ((ps : Pending) × Writes codec (pos 5) items ps × (contents w' ≡ apply ps (contents store)))
set_multi_pebble_all_or_none_example =
    set_multi_pebble_all_or_none reference codec contents (λ b. b) reference-Stores items (pos 5)
      store

abbrev adapter : Adapter
adapter = record { ttl = pos 100 }

abbrev loader : Action Store ℕ
loader w = (ok (some 3), w)

get-get_or_set_example :
    let (r, w') = Pebble.get_or_set reference codec adapter 60 61 (string a_text) loader [] store in
    ((r ≡ ok (some 3))
      × (((Pebble.get reference codec adapter 70 (string a_text) w').0
            ≡ answer_of 70 (entry_of 61 (some 3) (ttl_for adapter [])))
          ⊎ ((e : Error) × ((Pebble.get reference codec adapter 70 (string a_text) w').0
                ≡ err (wrap (bytes "pebble: get failed") e)))))
    ⊎ ((e : Error) × (r ≡ err e)
        × ((Pebble.set reference codec adapter 61
              (string a_text)
              (some 3)
              []
              (loader (Pebble.get reference codec adapter 60 (string a_text) store).1).1).0
            ≡ err e))
unfolding program
get-get_or_set_example =
    get-get_or_set reference codec adapter contents (λ b. b) reference-Stores 60 61 70
      (string a_text) (161 ∷ 3 ∷ []) (some 3) [] loader store refl refl refl refl refl
