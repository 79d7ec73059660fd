-- ===== src/Memory/Collect.antt =====
-- Garbage collection: what `evictExpired` and `runGC` leave.
use nyro.Base.{
  ◌≤◌, ◌≡◌, refl, true, false, [], ◌∷◌, Option, none, some, if◌then◌else◌, arith, All, eq_iff,
}
use nyro.Base.Duration.{Time}
use nyro.Base.Text.{Text, text_eq}
use nyro.Base.Dict.{Dict, lookup, Distinct}
use nyro.Keys.{Key}
use nyro.Memory.{Adapter, Entry, expired, drop_expired, evict_expired, get, live, to_key}

-- What has expired stays expired.
pub expired_mono :
    {V : Type 0} (t now : Time) (e : Entry V) → t ≤ now → expired t e ≡ true → expired now e ≡ true
unfolding expired
expired_mono t now e h x = ground arith

module _ {V : Type 0} (t : Time) where
  drop-none :
      (k : Text) (m : Dict Text (Entry V)) → lookup k m ≡ none → lookup k (drop_expired t m) ≡ none
  unfolding drop_expired lookup
  drop-none k [] h = refl
  drop-none k ((j, e) ∷ m) h = ground (arith, drop-none k m)

  -- With distinct keys a lookup in what is left finds the entry if it has not expired.
  pub lookup-drop :
      (k : Text) (m : Dict Text (Entry V))
      → Distinct m
      → lookup k (drop_expired t m)
        ≡ elim (lookup k m) [ none ↦ none | some e ↦ if expired t e then none else some e ]
  unfolding drop_expired lookup
  lookup-drop k [] d = refl
  lookup-drop k ((j, e) ∷ m) d = ground (arith, eq_iff j k, drop-none j m d.0, lookup-drop k m d.1)

  pub drop-Distinct : (m : Dict Text (Entry V)) → Distinct m → Distinct (drop_expired t m)
  unfolding drop_expired
  drop-Distinct [] d = tt
  drop-Distinct ((j, e) ∷ m) d = ground (arith, drop-none j m, drop-Distinct m)

  drop_every_live :
      (m : Dict Text (Entry V))
      → All (λ (e : Text × Entry V). expired t e.1 ≡ false) (drop_expired t m)
  unfolding drop_expired
  drop_every_live [] = tt
  drop_every_live ((j, e) ∷ m) = ground (arith, drop_every_live m)

module _ {V : Type 0} (a : Adapter V) where
  -- `evictExpired` leaves no expired entry, and keeps the keys distinct.
  pub evict_expired-clean :
      (t : Time)
      → Distinct a.entries
      → All (λ (e : Text × Entry V). expired t e.1 ≡ false) (evict_expired t a).entries
        × Distinct (evict_expired t a).entries
  unfolding evict_expired
  evict_expired-clean t d = (drop_every_live t a.entries, drop-Distinct t a.entries d)

  -- A collection at `t` is invisible: every later `Get` returns what it would have returned.
  pub get-evict_expired :
      (t now : Time) (key : Key)
      → Distinct a.entries
      → t ≤ now
      → get now key (evict_expired t a) ≡ get now key a
  unfolding get evict_expired
  get-evict_expired t now key d h =
      rw (lookup-drop t (to_key key) a.entries d) (seen (lookup (to_key key) a.entries))
    where
      seen :
          (o : Option (Entry V))
          → live now (elim o [ none ↦ none | some e ↦ if expired t e then none else some e ])
            ≡ live now o
      seen none = refl
      seen (some e) = ground (arith, expired_mono t now e h)
