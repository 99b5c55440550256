-- ===== src/Njs/Ws/Opened.antt =====
-- `filter` of core/njs/shield_ws.js: the session of a client, with the configuration that its
-- listener has.
use fips_shield.Base.{ℕ, ◌+◌, ◌*◌, List, []}
use fips_shield.Std.Text.{codes}
use fips_shield.Njs.Runtime.{Runtime}
use fips_shield.Njs.Bucket.{bucket}
use fips_shield.Njs.Bans.{Cache}
use fips_shield.Njs.Policy.{Client, policy, knob, num, read_cfg}
use fips_shield.Njs.Session.{State, Account}
use fips_shield.Njs.Ws.{start}
use fips_shield.Njs.Ws.Sessions.{Event, run}
use fips_shield.Njs.Ws.Bounds.{IsHeld, run-start-IsHeld}

module _ (R : Runtime) where
  -- The buckets of `readCfg`, from a reading of the clock on; `filter` reads the clock once more.
  unfoldable pub open_account : Client → ℕ → Account
  unfolding policy knob num bucket
  open_account s i =
      let p = policy s in
      record {
        subs = [];
        sub_count = 0;
        b_msg =
            bucket (num R (knob (codes "ws_msg_rate") p) 20)
              (num R (knob (codes "ws_msg_burst") p) 100) (R.date_now i);
        b_event =
            bucket (num R (knob (codes "ws_event_rate") p) 5)
              (num R (knob (codes "ws_event_burst") p) 50) (R.date_now (i + 1));
        b_req =
            bucket (num R (knob (codes "ws_req_rate") p) 5)
              (num R (knob (codes "ws_req_burst") p) 20) (R.date_now (i + 2));
        ticks = i + 4;
      }

  -- The cache of bans is what `access` left.
  unfoldable pub filter : Client → ℕ → Cache → State
  unfolding read_cfg open_account start
  filter s i c = start (open_account s i) (R.date_now (i + 3) + (read_cfg R s).ban_recheck * 1000) c

  -- Whatever a client and the upstream send, the session holds no more than its policy says.
  filter-IsHeld :
      (s : Client) (i : ℕ) (c : Cache) (es : List Event)
      → IsHeld (read_cfg R s) (run R (read_cfg R s) es (filter s i c))
  unfolding filter
  filter-IsHeld s i c es = run-start-IsHeld R (read_cfg R s) es (open_account s i) _ c
