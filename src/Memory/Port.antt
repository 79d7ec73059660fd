-- ===== src/Memory/Port.antt =====
-- adapters/memory/adapter.go: the adapter as a `cache.Cache`, at given readings of the clock: those of
-- the look-ups, that of the second look-up of `GetOrSet`, and those of the writes.
use nyro.Base.{map}
use nyro.Base.Duration.{Time}
use nyro.Base.Text.{Text}
use nyro.Cache.{Cache}
use nyro.Memory
use nyro.Memory.{Adapter}
use nyro.Memory.Bulk
use nyro.Memory.Bulk.{at_time}
use nyro.Memory.Loading.{Action, get_or_set}

unfoldable pub memory_cache :
    {V : Type 0} → (Text → Action V → Action V) → Time → Time → Time → Cache (Adapter V) V
memory_cache flight t₁ t₂ t₃ = record {
  get = λ key a. (Memory.get t₁ key a, a);
  set = Memory.set t₃;
  delete = Memory.delete_key;
  clear = Memory.clear;
  exists = λ key a. (Memory.exists t₁ key a, a);
  get_or_set = get_or_set flight t₁ t₂ t₃;
  get_multi = λ keys a. (Bulk.get_multi (at_time t₁ keys) a, a);
  set_multi = λ items options. Bulk.set_multi (map (λ item. (t₃, item.0, item.1)) items) options;
  delete_multi = Bulk.delete_multi;
  health_check = λ a. (Memory.health_check a, a);
  get_stats = λ a. (Memory.get_stats a, a);
  close = Memory.close;
}
