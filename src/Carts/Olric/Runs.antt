-- ===== src/Carts/Olric/Runs.antt =====
-- What a client of `OlricCart` reads after any sequence of calls.
use nyro.Base.{List, Option}
use nyro.Base.Text.{Text}
use nyro.Carts.Contract.{Values, Sees, SeesFlag}
use nyro.Carts.Contract.Runs.{Call, Lands, run, replay, reads_replayed, AllCounted-Always}
use nyro.Carts.Olric.{Client, OlricCart, OlricCartConfig, Action, get, exists}
use nyro.Carts.Olric.Reads.{Serves}
use nyro.Carts.Olric.Keeps.{OlricCart-Keeps}
use nyro.Adapters.Olric.{olric_cart}

module _ {W D L V : Type 0} (c : Client W D L V) (view : D → W → Values V)
    (denotes : Option V → Option V) (serves : Serves c view denotes) where
  -- After any sequence of calls on `OlricCart`, of which those that write a key succeed while others may
  -- fail, the reads of the key see what the same calls make of a function from keys to values, also
  -- where a `Clear` has replaced the map: `Get` returns that value or fails, and reports a miss only
  -- if there is none; `Exists` answers whether there is one, or fails.
  pub reads_replayed_olric :
      (cfg : OlricCartConfig) (flight : Text → Action W D L V → Action W D L V) (sleep : W → W)
      (value : Text) (calls : List (Call V)) (key : Text) (s : OlricCart W D L)
      → Lands (olric_cart c cfg flight sleep value) calls key s
      → let s' = run (olric_cart c cfg flight sleep value) calls s in
        Sees (get c key s').0 (replay denotes calls (view s.dmap s.world) key)
        × SeesFlag (exists c key s').0 (replay denotes calls (view s.dmap s.world) key)
  reads_replayed_olric cfg flight sleep value calls key s =
      reads_replayed (OlricCart-Keeps c view denotes serves cfg flight sleep value) calls key s
        (AllCounted-Always calls key)
