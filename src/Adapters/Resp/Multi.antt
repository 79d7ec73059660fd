-- ===== src/Adapters/Resp/Multi.antt =====
-- `GetMulti` of the adapters: from the strings that the cart knows back to the keys of the caller.
use nyro.Base.{
  ◌≡◌, ◌∙◌, refl, ◌⊎◌, inl, inr, true, false, List, [], ◌∷◌, map, Option, none, some, if◌then◌else◌,
  arith, ◌==◌, eq_iff, Bool-cases,
}
use nyro.Base.Text.{Text, bytes, text_eq}
use nyro.Base.Dict.{Dict, lookup, insert, lookup-insert, Keys, Distinct, asked, asked-All}
use nyro.Errors.{Error, wrap, ok, err}
use nyro.Keys.{Key, to_string, key_eq}
use nyro.Carts.Json.{Json}
use nyro.Carts.Redis.{Client}
use nyro.Carts.Redis.Server.{Contents, Serves}
use nyro.Carts.Redis.Contents.{found_at, lookup-get_multi_cart, get_multi-Keys}
use nyro.Adapters.Resp.{Adapter, key_map, key_for, relabel, relabelled, get_multi}

-- The key given last among those with the string.
unfoldable pub last_named : Text → List Key → Option Key
last_named s [] = none
last_named s (k ∷ keys) = elim (last_named s keys) [
  | none ↦ if to_string k == s then some k else none
  | some k' ↦ some k'
]

-- A string is labelled by the key that stands under it in `keyMap`, whose string it is.
abbrev pub Labelled : Dict Text Key → Text → Type 0
Labelled m s = (k : Key) × (lookup s m ≡ some k) × (to_string k ≡ s)

lookup-key_map :
    (s : Text) (keys : List Key) (m : Dict Text Key)
    → lookup s (key_map keys m) ≡ elim (last_named s keys) [ none ↦ lookup s m | some k ↦ some k ]
unfolding key_map last_named
lookup-key_map s [] m = refl
lookup-key_map s (k ∷ keys) m =
    ground
      (arith, lookup-key_map s keys (insert (to_string k) k m), lookup-insert (to_string k) s k m)

key_map-last_named : (s : Text) (keys : List Key) → lookup s (key_map keys []) ≡ last_named s keys
unfolding lookup
key_map-last_named s keys = ground (arith, lookup-key_map s keys [])

last_named-to_string :
    (s : Text) (keys : List Key) (k : Key) → last_named s keys ≡ some k → to_string k ≡ s
unfolding last_named
last_named-to_string s [] k h = cc
last_named-to_string s (j ∷ keys) k h =
    ground (arith, last_named-to_string s keys k, eq_iff (to_string j) s)

-- What of the cart's results ends under `j`.
abbrev pub chosen : {V : Type 0} → Dict Text Key → Key → Dict Text (Option V) → Option (Option V)
chosen m j res = elim (lookup (to_string j) m) [
  | none ↦ none
  | some k ↦ if k == j then lookup (to_string j) res else none
]

abbrev pub or_before : {V : Type 0} → Option (Option V) → Option (Option V) → Option (Option V)
or_before none before = before
or_before (some v) before = some v

pub lookup-relabel :
    {V : Type 0} (m : Dict Text Key) (j : Key) (res : Dict Text (Option V))
    (out : Dict Key (Option V))
    → Keys (Labelled m) res
    → Distinct res
    → lookup j (relabel m res out) ≡ or_before (chosen m j res) (lookup j out)
unfolding relabel lookup
lookup-relabel m j [] out h d = ground arith
lookup-relabel m j ((sk, v) ∷ res) out ((k, at, named), h) d =
    rw (at, key_for)
      (lookup-relabel m j res (insert k v out) h d.1
        ∙ rw (lookup-insert k j v out)
            (step (Bool-cases (k == j)) (Bool-cases (sk == to_string j))))
  where
    step :
        ((k == j) ≡ true) ⊎ ((k == j) ≡ false)
        → ((sk == to_string j) ≡ true) ⊎ ((sk == to_string j) ≡ false)
        → or_before (chosen m j res) (if k == j then some v else lookup j out)
          ≡ or_before (chosen m j ((sk, v) ∷ res)) (lookup j out)
    step a b = ground (arith, eq_iff k j, eq_iff sk (to_string j), d.0)

-- A string is among those asked for exactly if some key has it.
last_named-asked :
    (s : Text) (keys : List Key)
    → ((k : Key) × (last_named s keys ≡ some k) × (asked s (map to_string keys) ≡ true))
      ⊎ ((last_named s keys ≡ none) × (asked s (map to_string keys) ≡ false))
unfolding last_named
last_named-asked s [] = inr (refl, refl)
last_named-asked s (k ∷ keys) = elim (last_named-asked s keys) [
  | inl (k', e, a) ↦ inl (k', rw e, ground arith)
  | inr (e, a) ↦ elim (Bool-cases (to_string k == s)) [
    | inl same ↦ inl (k, rw (e, same), rw same)
    | inr other ↦ inr (rw (e, other), rw (other, a))
  ]
]

pub labelled :
    (keys : List Key) (s : Text)
    → asked s (map to_string keys) ≡ true
    → Labelled (key_map keys []) s
labelled keys s h = elim (last_named-asked s keys) [
  | inl (k, e, _) ↦ (k, key_map-last_named s keys ∙ e, last_named-to_string s keys k e)
  | inr (_, a) ↦ absurd (ground arith)
]

nothing_named :
    {V : Type 0} (x : Key → Option (Option V)) (j : Key)
    → none ≡ elim (last_named (to_string j) []) [ none ↦ none | some k ↦ x k ]
unfolding last_named
nothing_named x j = refl

pub read_back :
    {V : Type 0} (keys : List Key) (j : Key) (res : Dict Text (Option V)) (x : Option (Option V))
    → lookup (to_string j) res ≡ (if asked (to_string j) (map to_string keys) then x else none)
    → or_before (chosen (key_map keys []) j res) none
      ≡ elim (last_named (to_string j) keys) [ none ↦ none | some k ↦ if k == j then x else none ]
read_back keys j res x h = elim (last_named-asked (to_string j) keys) [
  | inl (k, e, a) ↦ ground (arith, key_map-last_named (to_string j) keys)
  | inr (e, a) ↦ ground (arith, key_map-last_named (to_string j) keys)
]

module _ {W V : Type 0} (c : Client W) (json : Json V) (a : Adapter) (view : W → Contents)
    (serves : Serves c view) where
  -- `GetMulti` of an adapter fails only as its cart does. Otherwise it holds, at each key asked for,
  -- the decoded value that the server has under the key's string, but for one case: where several
  -- of the keys have one string, only the key given last is in the result.
  pub lookup-get_multi_adapter :
      (keys : List Key) (w : W)
      → ((d : Dict Key (Option V)) × ((get_multi c json a keys w).0 ≡ ok d)
          × ((j : Key)
              → lookup j d ≡ elim (last_named (to_string j) keys) [
                | none ↦ none
                | some k ↦ if k == j then found_at c json (view w) (to_string j) none else none
              ]))
        ⊎ ((e : Error) × ((get_multi c json a keys w).0 ≡ err (wrap (bytes "redis mget failed") e)))
  unfolding get_multi relabelled lookup
  lookup-get_multi_adapter [] w = inl ([], refl, λ j. nothing_named _ j)
  lookup-get_multi_adapter (key ∷ keys) w =
      elim (lookup-get_multi_cart c json view serves (map to_string (key ∷ keys)) w) [
        | inr (e, failed) ↦ inr (e, rw failed)
        | inl (res, replied, f) ↦
            let (h, u) =
              get_multi-Keys c json view serves (Labelled (key_map (key ∷ keys) []))
                (map to_string (key ∷ keys)) w res
                (asked-All (Labelled (key_map (key ∷ keys) [])) (map to_string (key ∷ keys))
                  (labelled (key ∷ keys)))
                replied in
            inl (
              relabel (key_map (key ∷ keys) []) res [],
              rw replied,
              λ j.
                  lookup-relabel (key_map (key ∷ keys) []) j res [] h u
                  ∙ read_back (key ∷ keys) j res (found_at c json (view w) (to_string j) none)
                      (f (to_string j)),
            )
      ]
