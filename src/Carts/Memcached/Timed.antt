-- ===== src/Carts/Memcached/Timed.antt =====
-- A server in memory with a clock: it shows that the documented expirations of Memcached can be met.
use nyro.Base.{
  ◌≡◌, ◌∙◌, refl, Bool, true, if◌then◌else◌, eq_self, ℕ, ltb, leb, ◌&&◌, ◌<◌, ◌≤◌, none, arith,
}
use nyro.Base.Duration.{ℤ, pos, negsuc}
use nyro.Base.Text.{Text, text_eq}
use nyro.Base.Dict.{lookup, insert, delete, lookup-delete}
use nyro.Errors.{Result, ok}
use nyro.Carts.Redis.Server.{Contents}
use nyro.Carts.Redis.Reference.{Store, contents}
use nyro.Carts.Memcached.{Client}
use nyro.Carts.Memcached.Ownership.{longest_relative}
use nyro.Carts.Memcached.Expiry.{Expires}
use nyro.Carts.Memcached.Reference.{reference, some_of_read}

-- A server with a clock, in Unix seconds.
pub record Timed : Type 0 where
  pub clock : ℕ
  pub store : Store

abbrev pub timed_contents : Timed → Contents
timed_contents t = contents t.store

timing : {A : Type 0} → (Store → Result A × Store) → Timed → Result A × Timed
timing f t = ((f t.store).0, record t { store = (f t.store).1 })

is_past : ℕ → ℤ → Bool
is_past now (pos n) = ltb longest_relative n && leb n now
is_past now (negsuc n) = true

set_timed : Text → Text → ℤ → Timed → Store
set_timed k s n t = if is_past t.clock n then delete k t.store else insert k s t.store

unfoldable pub timed_reference : Client Timed
unfolding reference timing is_past set_timed
timed_reference = record {
  get = λ k. timing (reference.get k);
  set = λ k s n t. (ok tt, record t { store = set_timed k s n t });
  add = λ k s n. timing (reference.add k s n);
  delete = λ k. timing (reference.delete k);
  get_multi = λ keys. timing (reference.get_multi keys);
  flush_all = timing reference.flush_all;
  ping = timing reference.ping;
  is_cache_miss = reference.is_cache_miss;
  is_not_stored = reference.is_not_stored;
  int32 = λ n. n;
}

past_deleted :
    (k s : Text) (n : ℕ) (t : Timed)
    → longest_relative < n
    → n ≤ t.clock
    → lookup k (set_timed k s (pos n) t) ≡ none
unfolding set_timed is_past
past_deleted k s n t long past =
    let expired : (ltb longest_relative n && leb n t.clock) ≡ true = ground arith in
    rw expired (lookup-delete k k t.store ∙ rw (eq_self k) refl)

pub timed_reference-Expires : Expires timed_reference timed_contents (λ t. t.clock)
unfolding timed_reference timing
timed_reference-Expires = record {
  int32_small = λ n h. refl;
  set_past = λ k s n t long past done. past_deleted k s n t long past;
  get_found = λ k t s h. some_of_read (lookup k t.store) s h;
}
