-- ===== src/Carts/Memcached/Values.antt =====
-- What the entries of Memcached decode to, and what `MemcachedCart` makes of several of them.
use nyro.Base.{◌≡◌, refl, inl, inr, [], ◌∷◌, Option, none, some, arith, eq_iff}
use nyro.Base.Text.{Text, text_eq}
use nyro.Base.Dict.{
  Dict, lookup, insert, lookup-insert, Keys, insert-Keys, Distinct, insert-Distinct,
}
use nyro.Errors.{ok, err, Result-cases}
use nyro.Carts.Json.{Json}
use nyro.Carts.Redis.Server.{Contents}
use nyro.Carts.Memcached.{Client, decode_all}
use nyro.Carts.Contract.{Values}
use nyro.Carts.Contract.Decoding

module _ {V : Type 0} (json : Json V) where
  -- An entry that does not decode stands for nil here; no read returns it.
  abbrev pub decode : Text → Option V
  decode s = elim (json.unmarshal s) [ ok v ↦ v | err _ ↦ none ]

  abbrev pub reading : Option Text → Option (Option V)
  reading = Decoding.reading decode

  -- What the server holds, decoded.
  abbrev pub values : Contents → Values V
  values = Decoding.values decode

  -- What a value that is stored comes back as.
  abbrev pub denotes : Option V → Option V
  denotes v = elim (json.marshal v) [ ok s ↦ decode s | err _ ↦ v ]

module _ {W V : Type 0} (c : Client W) (json : Json V) where
  -- The loop of `GetMulti` over the items that were found.
  pub decode_all-Keys :
      (P : Text → Type 0) (items : Dict Text Text) (out d : Dict Text (Option V))
      → Keys P items
      → Keys P out
      → Distinct out
      → decode_all c json items out ≡ ok d
      → Keys P d × Distinct d
  unfolding decode_all
  decode_all-Keys P [] out d a k u h = let e : out ≡ d = ground arith in rw (← e) (k, u)
  decode_all-Keys P ((key, s) ∷ items) out d a k u h = elim (Result-cases (json.unmarshal s)) [
    | inr (e, bad) ↦ absurd (ground arith)
    | inl (v, read) ↦
        decode_all-Keys P items (insert key v out) d a.1 (insert-Keys P key v out a.0 k)
          (insert-Distinct key v out u) (rw (read, decode_all) at h)
  ]

  pub lookup-decode_all :
      (items : Dict Text Text) (out d : Dict Text (Option V)) (j : Text)
      → Distinct items
      → decode_all c json items out ≡ ok d
      → lookup j d ≡ elim (lookup j items) [ none ↦ lookup j out | some s ↦ some (decode json s) ]
  unfolding decode_all lookup
  lookup-decode_all [] out d j u h = ground arith
  lookup-decode_all ((key, s) ∷ items) out d j u h = elim (Result-cases (json.unmarshal s)) [
    | inr (e, bad) ↦ absurd (ground arith)
    | inl (v, read) ↦
        let came : decode json s ≡ v = rw (read, decode) refl in
        ground (
          arith,
          lookup-decode_all items (insert key v out) d j u.1 (rw (read, decode_all) at h),
          lookup-insert key j v out,
          eq_iff key j,
          u.0,
          came,
        )
  ]
