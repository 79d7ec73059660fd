-- ===== src/Adapters/Contract.antt =====
-- What the adapters promise of the keys of their callers, over any cart that keeps its contract.
pub mod Caches
use nyro.Base.{
  ◌≡◌, ◌∙◌, refl, ap, fun_ext, true, false, List, [], ◌∷◌, map, Option, none, some, if◌then◌else◌,
  arith, ◌==◌, eq_iff, Bool-cases, inl, inr, Bool, ◌||◌,
}
use nyro.Base.Duration.{Duration}
use nyro.Base.Text.{Text, text_eq}
use nyro.Base.Dict.{Dict, lookup, insert, Keys, Distinct, insert-Distinct, asked}
use nyro.Errors.{Result, ok, err, Result-cases}
use nyro.Keys.{Key, to_string, key_eq}
use nyro.Options.{Option as CacheOption}
use nyro.Cache.{Cache}
use nyro.Carts.Cart.{Cart}
use nyro.Carts.Contract.{
  Values, assign, assign_all, remove_all, names, Sees, SeesFlag, SeesAll, Keeps,
}
use nyro.Carts.Contract.Runs.{Always}
use nyro.Adapters.Resp.{RespConfig, key_map, relabel, relabelled, store_items}
use nyro.Adapters.Resp.Multi.{last_named, Labelled, lookup-relabel, labelled, read_back}
use nyro.Adapters.RespCache
use nyro.Adapters.RespCache.{resp_cache}
use nyro.Adapters.Keyed
use nyro.Adapters.Keyed.{keyed_cache}

-- The items one by one, under the strings of their keys.
abbrev pub assign_keys :
    {V : Type 0} → (Option V → Option V) → Dict Key (Option V) → Values V → Values V
assign_keys denotes [] f = f
assign_keys denotes ((k, v) ∷ items) f =
    assign_keys denotes items (assign (to_string k) (some (denotes v)) f)

-- What is found of `key` among `keys`: of the keys with one string only the last is labelled.
abbrev pub found_among : {V : Type 0} → List Key → Key → Values V → Option (Option V)
found_among keys key f = elim (last_named (to_string key) keys) [
  | none ↦ none
  | some k ↦ if k == key then f (to_string key) else none
]

abbrev pub SeesKeys : {V : Type 0} → List Key → Result (Dict Key (Option V)) → Values V → Type 0
SeesKeys keys (ok d) f = (key : Key) → lookup key d ≡ found_among keys key f
SeesKeys keys (err e) f = Unit

-- A cache whose keys stand for their strings.
pub record KeepsKeys {W V : Type 0} (cache : Cache W V) (view : W → Values V)
    (denotes : Option V → Option V) : Type 0 where
  pub get_keeps : (key : Key) (w : W) → view (cache.get key w).1 ≡ view w
  pub get_sees : (key : Key) (w : W) → Sees (cache.get key w).0 (view w (to_string key))
  pub exists_sees : (key : Key) (w : W) → SeesFlag (cache.exists key w).0 (view w (to_string key))
  pub get_multi_keeps : (keys : List Key) (w : W) → view (cache.get_multi keys w).1 ≡ view w
  pub get_multi_sees : (keys : List Key) (w : W) → SeesKeys keys (cache.get_multi keys w).0 (view w)
  pub set_done :
      (key : Key) (v : Option V) (options : List CacheOption) (w : W)
      → (cache.set key v options w).0 ≡ ok tt
      → view (cache.set key v options w).1 ≡ assign (to_string key) (some (denotes v)) (view w)
  pub delete_done :
      (key : Key) (w : W)
      → (cache.delete key w).0 ≡ ok tt
      → view (cache.delete key w).1 ≡ assign (to_string key) none (view w)
  pub set_multi_done :
      (items : Dict Key (Option V)) (options : List CacheOption) (w : W)
      → (cache.set_multi items options w).0 ≡ ok tt
      → view (cache.set_multi items options w).1 ≡ assign_keys denotes items (view w)
  pub delete_multi_done :
      (keys : List Key) (w : W)
      → (cache.delete_multi keys w).0 ≡ ok tt
      → view (cache.delete_multi keys w).1 ≡ remove_all (map to_string keys) (view w)
  pub clear_done : (w : W) → (cache.clear w).0 ≡ ok tt → view (cache.clear w).1 ≡ λ s. none

module _ {V : Type 0} (denotes : Option V → Option V) where
  assign_comm :
      (j k : Text) (x y : Option (Option V)) (f : Values V)
      → (j == k) ≡ false
      → assign j x (assign k y f) ≡ assign k y (assign j x f)
  assign_comm j k x y f h = fun_ext λ i. ground (arith, eq_iff j k, eq_iff j i, eq_iff k i)

  -- A key that is not among the items can be assigned after them.
  assign_all-assign :
      (d : Dict Text (Option V)) (k : Text) (x : Option (Option V)) (f : Values V) (i : Text)
      → lookup k d ≡ none
      → assign_all denotes d (assign k x f) i ≡ assign k x (assign_all denotes d f) i
  unfolding lookup
  assign_all-assign [] k x f i h = refl
  assign_all-assign ((j, u) ∷ d) k x f i h =
      let other : (j == k) ≡ false = ground arith in
      rw (assign_comm j k (some (denotes u)) x f other)
        (assign_all-assign d k x (assign j (some (denotes u)) f) i (ground arith))

  assign_all-insert :
      (d : Dict Text (Option V)) (k : Text) (v : Option V) (f : Values V)
      → Distinct d
      → assign_all denotes (insert k v d) f ≡ assign k (some (denotes v)) (assign_all denotes d f)
  unfolding insert
  assign_all-insert [] k v f u = refl
  assign_all-insert ((j, w) ∷ d) k v f u = elim (Bool-cases (j == k)) [
    | inr other ↦ rw (other, insert) (assign_all-insert d k v (assign j (some (denotes w)) f) u.1)
    | inl same ↦
        rw (same, insert)
          (fun_ext λ i. ground (
            arith,
            eq_iff j k,
            eq_iff k i,
            assign_all-assign d k (some (denotes v)) f i,
            assign_all-assign d j (some (denotes w)) f i,
          ))
  ]

  assign_all-store_items :
      (items : Dict Key (Option V)) (out : Dict Text (Option V)) (f : Values V)
      → Distinct out
      → assign_all denotes (store_items items out) f
        ≡ assign_keys denotes items (assign_all denotes out f)
  unfolding store_items
  assign_all-store_items [] out f u = refl
  assign_all-store_items ((k, v) ∷ items) out f u =
      assign_all-store_items items (insert (to_string k) v out) f
        (insert-Distinct (to_string k) v out u)
      ∙ ap (assign_keys denotes items) (assign_all-insert out (to_string k) v f u)

Keys-map :
    {V : Type 0} (P Q : Text → Type 0) (d : Dict Text V)
    → ((s : Text) → P s → Q s)
    → Keys P d
    → Keys Q d
Keys-map P Q [] h k = tt
Keys-map P Q ((s, v) ∷ d) h k = (h s k.0, Keys-map P Q d h k.1)

relabelled_sees :
    {V : Type 0} (keys : List Key) (r : Result (Dict Text (Option V))) (f : Values V)
    → SeesAll (map to_string keys) r f
    → SeesKeys keys (relabelled keys r) f
unfolding relabelled lookup
relabelled_sees keys (err e) f h = tt
relabelled_sees keys (ok res) f (h, u, found) = λ key.
    lookup-relabel (key_map keys []) key res []
      (Keys-map (λ s. asked s (map to_string keys) ≡ true) (Labelled (key_map keys [])) res
        (labelled keys) h)
      u
    ∙ read_back keys key res (f (to_string key)) (found (to_string key))

module _ {W V : Type 0} {cart : Cart W V} {view : W → Values V} {denotes : Option V → Option V}
    (keeps : Keeps cart view denotes Always) where
  -- The caches of Memcached, Olric and SurrealDB are such caches; the cart of Olric keeps the contract.
  pub keyed_cache-KeepsKeys :
      (ttl : Duration) (type : Text) → KeepsKeys (keyed_cache cart ttl type) view denotes
  unfolding Keyed.set Keyed.get_multi Keyed.set_multi Keyed.delete_multi
  keyed_cache-KeepsKeys ttl type = record {
    get_keeps = λ key. keeps.get_keeps (to_string key);
    get_sees = λ key. keeps.get_sees (to_string key);
    exists_sees = λ key. keeps.exists_sees (to_string key);
    get_multi_keeps = λ keys. keeps.get_multi_keeps (map to_string keys);
    get_multi_sees = λ keys w.
        relabelled_sees keys (cart.get_multi (map to_string keys) w).0 (view w)
          (keeps.get_multi_sees (map to_string keys) w);
    set_done = λ key v options w. keeps.set_done (to_string key) v _ w tt;
    delete_done = λ key. keeps.delete_done (to_string key);
    set_multi_done = λ items options w h.
        keeps.set_multi_done (store_items items []) _ w tt h
        ∙ assign_all-store_items denotes items [] (view w) tt;
    delete_multi_done = λ keys. keeps.delete_multi_done (map to_string keys);
    clear_done = keeps.clear_done;
  }

  -- The caches of Redis, Dragonfly, KeyDB and Valkey return at once where there are no keys.
  module _ (config : RespConfig) (type : Text) where
    get_multi_sees :
        (keys : List Key) (w : W)
        → SeesKeys keys (RespCache.get_multi cart config type keys w).0 (view w)
    unfolding RespCache.get_multi lookup last_named
    get_multi_sees [] w = λ key. refl
    get_multi_sees (k ∷ keys) w =
        relabelled_sees (k ∷ keys) (cart.get_multi (map to_string (k ∷ keys)) w).0 (view w)
          (keeps.get_multi_sees (map to_string (k ∷ keys)) w)

    get_multi_keeps :
        (keys : List Key) (w : W) → view (RespCache.get_multi cart config type keys w).1 ≡ view w
    unfolding RespCache.get_multi
    get_multi_keeps [] w = refl
    get_multi_keeps (k ∷ keys) w = keeps.get_multi_keeps (map to_string (k ∷ keys)) w

    set_multi_done :
        (items : Dict Key (Option V)) (options : List CacheOption) (w : W)
        → (RespCache.set_multi cart config type items options w).0 ≡ ok tt
        → view (RespCache.set_multi cart config type items options w).1
          ≡ assign_keys denotes items (view w)
    unfolding RespCache.set_multi
    set_multi_done [] options w h = refl
    set_multi_done (item ∷ items) options w h =
        keeps.set_multi_done (store_items (item ∷ items) []) _ w tt h
        ∙ assign_all-store_items denotes (item ∷ items) [] (view w) tt

    delete_multi_done :
        (keys : List Key) (w : W)
        → (RespCache.delete_multi cart config type keys w).0 ≡ ok tt
        → view (RespCache.delete_multi cart config type keys w).1
          ≡ remove_all (map to_string keys) (view w)
    unfolding RespCache.delete_multi
    delete_multi_done [] w h = refl
    delete_multi_done (k ∷ keys) w h = keeps.delete_multi_done (map to_string (k ∷ keys)) w h

    pub resp_cache-KeepsKeys :
        (missing : Text) → KeepsKeys (resp_cache cart config type missing) view denotes
    unfolding RespCache.set
    resp_cache-KeepsKeys missing = record {
      get_keeps = λ key. keeps.get_keeps (to_string key);
      get_sees = λ key. keeps.get_sees (to_string key);
      exists_sees = λ key. keeps.exists_sees (to_string key);
      get_multi_keeps = get_multi_keeps;
      get_multi_sees = get_multi_sees;
      set_done = λ key v options w. keeps.set_done (to_string key) v _ w tt;
      delete_done = λ key. keeps.delete_done (to_string key);
      set_multi_done = set_multi_done;
      delete_multi_done = delete_multi_done;
      clear_done = keeps.clear_done;
    }
