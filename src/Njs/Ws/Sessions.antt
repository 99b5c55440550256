-- ===== src/Njs/Ws/Sessions.antt =====
-- Sessions of core/njs/shield_ws.js: any sequence of what the client and the upstream send.
use fips_shield.Base.{Bool, List, [], ◌∷◌}
use fips_shield.Std.Utf8.{Bytes}
use fips_shield.Njs.Runtime.{Runtime}
use fips_shield.Njs.Session.{Cfg, State}
use fips_shield.Njs.Ws.{on_data, on_downstream}

-- A call of a callback, with its data and whether they are the last.
pub data Event : Type 0 where
  from_client : Bytes → Bool → Event
  from_upstream : Bytes → Bool → Event

module _ (R : Runtime) (cfg : Cfg) where
  unfoldable pub on : Event → State → State
  on (from_client d last) st = on_data R cfg d last st
  on (from_upstream d last) st = on_downstream R d last st

  unfoldable pub run : List Event → State → State
  run [] st = st
  run (e ∷ es) st = run es (on e st)
