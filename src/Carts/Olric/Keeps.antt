-- ===== src/Carts/Olric/Keeps.antt =====
-- `OlricCart` keeps the contract over a grid that behaves as documented.
use nyro.Base.{◌≡◌, ◌∙◌, refl, ap, inl, inr, false, List, [], ◌∷◌, Option, none, some, arith}
use nyro.Base.Duration.{Duration}
use nyro.Base.Text.{Text, bytes, text_eq}
use nyro.Base.Dict.{Dict, asked}
use nyro.Errors.{Result, ok, err, Result-cases}
use nyro.Carts.Contract.{
  Values, assign, assign_all, remove_all, names, Keeps, Effect, Effect-done, Effect-other,
  remove_all_other,
}
use nyro.Carts.Contract.Runs.{Always}
use nyro.Carts.Olric.{
  Client, OlricCart, OlricCartConfig, Action, in_world, set, set_multi, delete, delete_multi,
  get_multi, clear, recreated, done_or,
}
use nyro.Adapters.Olric.{olric_cart}
use nyro.Carts.Olric.Reads.{
  Serves, holds, get_keeps, get-Sees, exists_keeps, exists-SeesFlag, get_each_keeps,
  get_multi-SeesAll,
}

done_or_ok : (m : Text) (r : Result (Unit {0})) → done_or m r ≡ ok tt → r ≡ ok tt
unfolding done_or
done_or_ok m (ok u) h = refl
done_or_ok m (err e) h = cc

-- Wrapping the error of an operation leaves its effect.
wrapped-Effect :
    {V : Type 0} (m : Text) (r : Result (Unit {0})) {old new now : Values V}
    → Effect r old new now
    → Effect (done_or m r) old new now
wrapped-Effect m r (inl (same, failed)) = inl (same, λ h. failed (done_or_ok m r h))
wrapped-Effect m r (inr done) = inr done

module _ {W D L V : Type 0} (c : Client W D L V) (view : D → W → Values V)
    (denotes : Option V → Option V) (serves : Serves c view denotes) where
  abbrev held : OlricCart W D L → Values V
  held = holds c view denotes serves

  set-Effect :
      (k : Text) (v : Option V) (d : Duration) (s : OlricCart W D L)
      → let (r, s') = set c k v d s in
        Effect r (held s) (assign k (some (denotes v)) (held s)) (held s')
  unfolding set in_world
  set-Effect k v d s =
      wrapped-Effect (bytes "olric: put failed") (c.put s.dmap k v d s.world).0
        (serves.put_effect s.dmap k v d s.world)

  delete-Effect :
      (k : Text) (s : OlricCart W D L)
      → let (r, s') = delete c k s in Effect r (held s) (assign k none (held s)) (held s')
  unfolding delete in_world
  delete-Effect k s =
      wrapped-Effect (bytes "olric: delete failed") (c.delete s.dmap (k ∷ []) s.world).0
        (serves.delete_effect s.dmap (k ∷ []) s.world)

  delete_multi-Effect :
      (keys : List Text) (s : OlricCart W D L)
      → let (r, s') = delete_multi c keys s in
        Effect r (held s) (remove_all keys (held s)) (held s')
  unfolding delete_multi in_world
  delete_multi-Effect keys s =
      wrapped-Effect (bytes "olric: delete multi failed") (c.delete s.dmap keys s.world).0
        (serves.delete_effect s.dmap keys s.world)

  set_multi_done :
      (items : Dict Text (Option V)) (d : Duration) (s : OlricCart W D L)
      → (set_multi c items d s).0 ≡ ok tt
      → held (set_multi c items d s).1 ≡ assign_all denotes items (held s)
  unfolding set_multi
  set_multi_done [] d s h = refl
  set_multi_done ((k, v) ∷ items) d s h =
      let (r, s') = set c k v d s in
      elim (Result-cases r) [
        | inr (e, failed) ↦ absurd (ground arith)
        | inl (u, done) ↦
            rw (done, set_multi)
              (set_multi_done items d s' (rw (done, set_multi) at h)
                ∙ ap (assign_all denotes items) (Effect-done r (set-Effect k v d s) done))
      ]

  set_multi_other :
      (items : Dict Text (Option V)) (d : Duration) (s : OlricCart W D L) (j : Text)
      → asked j (names items) ≡ false
      → held (set_multi c items d s).1 j ≡ held s j
  unfolding set_multi
  set_multi_other [] d s j o = refl
  set_multi_other ((k, v) ∷ items) d s j o =
      let (r, s') = set c k v d s in
      let first = Effect-other r j (set-Effect k v d s) (ground arith) in
      elim (Result-cases r) [
        | inr (e, failed) ↦ rw (failed, set_multi) first
        | inl (u, done) ↦ rw (done, set_multi) (set_multi_other items d s' j (ground arith) ∙ first)
      ]

  clear_done :
      (cfg : OlricCartConfig) (s : OlricCart W D L)
      → (clear c cfg s).0 ≡ ok tt
      → held (clear c cfg s).1 ≡ λ j. none
  unfolding clear in_world recreated
  clear_done cfg s h = elim (Result-cases (c.destroy s.dmap s.world).0) [
    | inr (e, failed) ↦ absurd (ground arith)
    | inl (u, gone) ↦
        let w₁ = (c.destroy s.dmap s.world).1 in
        elim (Result-cases (c.new_dmap cfg.dmap_name w₁).0) [
          | inr (e, failed) ↦ absurd (ground arith)
          | inl (d', made) ↦
              rw (gone, clear, made, recreated)
                (serves.destroyed s.dmap d' cfg.dmap_name s.world gone made)
        ]
  ]

  -- Over an Olric grid, `OlricCart` does what the interface of a cart promises: its reads report what is
  -- there, its writes that succeed do what they say, and no call changes a key that it does not name.
  pub OlricCart-Keeps :
      (cfg : OlricCartConfig) (flight : Text → Action W D L V → Action W D L V) (sleep : W → W)
      (value : Text)
      → Keeps (olric_cart c cfg flight sleep value) (λ s. view s.dmap s.world) denotes Always
  unfolding get_multi
  OlricCart-Keeps cfg flight sleep value = record {
    get_keeps = get_keeps c view denotes serves;
    get_sees = get-Sees c view denotes serves;
    exists_keeps = exists_keeps c view denotes serves;
    exists_sees = exists-SeesFlag c view denotes serves;
    get_multi_keeps = λ keys s. get_each_keeps c view denotes serves keys [] s;
    get_multi_sees = get_multi-SeesAll c view denotes serves;
    set_done = λ k v d s l. Effect-done (set c k v d s).0 (set-Effect k v d s);
    set_other = λ k v d s j o. Effect-other (set c k v d s).0 j (set-Effect k v d s) (rw o refl);
    delete_done = λ k s. Effect-done (delete c k s).0 (delete-Effect k s);
    delete_other = λ k s j o. Effect-other (delete c k s).0 j (delete-Effect k s) (rw o refl);
    set_multi_done = λ items d s l. set_multi_done items d s;
    set_multi_other = set_multi_other;
    delete_multi_done =
        λ keys s. Effect-done (delete_multi c keys s).0 (delete_multi-Effect keys s);
    delete_multi_other = λ keys s j o.
        Effect-other (delete_multi c keys s).0 j (delete_multi-Effect keys s)
          (remove_all_other keys (held s) j o);
    clear_done = clear_done cfg;
  }
