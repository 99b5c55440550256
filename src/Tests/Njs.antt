-- ===== src/Tests/Njs.antt =====
-- Sessions of the WebSocket filter with a concrete runtime, in which one text parses as JSON.
use fips_shield.Base.{
  ℕ, ◌*◌, ◌≡◌, refl, true, false, none, some, [], ◌∷◌, ◌++◌, ltb, if◌then◌else◌, arith, take,
}
use fips_shield.Std.Text.{starts_with, Text, codes, text_eq}
use fips_shield.Std.Number.{to_text, parse_u64}
use fips_shield.Std.Utf8.{Bytes, from_utf8_lossy}
use fips_shield.Njs.Runtime.{Runtime, str, arr, item, nil}
use fips_shield.Base.Int.{pos}
use fips_shield.Njs.Bans.{empty_cache}
use fips_shield.Njs.Bucket.{Bucket, take_token}
use fips_shield.Njs.Session.{
  plain, down, violate_by, farewell, to_client, Cfg, Account, State, ws, up, flush,
}
use fips_shield.Njs.Inspect.{inspect, dispatch, on_auth}
use fips_shield.Njs.Frames.{
  peek, check_head, unmask, hold, settle, complete, on_data_frame, on_held, on_frame, pump_step,
  pump_loop, pump,
}
use fips_shield.Njs.Frames.Progress.{Rests}
use fips_shield.Njs.Frames.Pump.{pump_ends}
use fips_shield.Njs.Frames.Release.{data_of, IsGathered}
use fips_shield.Njs.Ws.{start, on_data, on_mode, on_segment, on_downstream, is_switch}
use fips_shield.Njs.Ws.Relay.{Passed, clients, bytes_of, run-Passed}
use fips_shield.Njs.Ws.Sessions.{on, from_client, from_upstream, run}
use fips_shield.Njs.Ws.Bounds.{IsHeld, run-start-IsHeld}

abbrev auth : Text
auth = codes "[\"AUTH\"]"

abbrev runtime : Runtime
runtime = record {
  Number = ℕ;
  exceeds = λ x n. ltb n x;
  print = to_text;
  parse_json = λ s. if text_eq s auth then some (arr (item (str (codes "AUTH")) nil)) else none;
  date_now = λ i. 100 * i;
  stat_sync = λ p i. none;
  read_file = λ p i. none;
  parse_float = parse_u64;
}

abbrev cfg : Cfg
cfg = record {
  remote_address = codes "fd00::1";
  ban_file = [];
  ban_recheck = 10;
  max_msg = 1024;
  max_subs = 20;
  max_filters = 10;
  max_filter_items = 500;
  max_limit = 5000;
  max_filter_value = 512;
  require_narrowing = true;
  max_hs_reads = 32;
  max_msg_reads = 65;
  types = codes "AUTH" ∷ [];
  kind_deny = [];
}

abbrev tokens : Bucket
tokens = record { rate = 5; burst = 10; credit = pos 10000; t = 0 }

abbrev account : Account
account = record {
  subs = [];
  sub_count = 0;
  b_msg = tokens;
  b_event = tokens;
  b_req = tokens;
  ticks = 0;
}

-- A frame with the message, under a masking key of zeros.
abbrev frame : Bytes
frame = 0x81 ∷ 0x88 ∷ 0 ∷ 0 ∷ 0 ∷ 0 ∷ auth

abbrev session : State
session = record (start account 0 empty_cache) { mode = ws }

abbrev arrived : State
arrived = record session { acc = frame }

forwards : (pump runtime cfg arrived).out ≡ up frame false ∷ []
unfolding pump pump_loop pump_step peek check_head on_frame on_held on_data_frame complete settle
    flush hold unmask inspect dispatch on_auth take_token from_utf8_lossy text_eq start
forwards = refl

pump_ends_example :
    (pump_loop runtime 20 cfg arrived ≡ some (pump runtime cfg arrived))
    × Rests (pump runtime cfg arrived)
pump_ends_example = pump_ends runtime cfg 20 arrived (omega arith)

run-start-IsHeld_example : IsHeld cfg (
    run runtime cfg
      (from_client (codes "GET / HTTP/1.1\r\nUpgrade: websocket\r\n\r\n") false
        ∷ from_client frame false
        ∷ from_upstream (codes "HTTP/1.1 101 ok") false
        ∷ [])
      (start account 0 empty_cache))
run-start-IsHeld_example =
    run-start-IsHeld runtime cfg
      (from_client (codes "GET / HTTP/1.1\r\nUpgrade: websocket\r\n\r\n") false
        ∷ from_client frame false
        ∷ from_upstream (codes "HTTP/1.1 101 ok") false
        ∷ [])
      account 0 empty_cache

-- The session once it has looked at no bytes.
abbrev listening : State
listening = pump runtime cfg session

-- A request whose lines end with a bare LF, after a read with the start of it.
abbrev half : State
half = record (start account 0 empty_cache) { hs = codes "GET / HTTP/1.1\n"; hs_scanned = 15 }

session-IsGathered : IsGathered session
unfolding start data_of
session-IsGathered = record { parts_eq = refl; pending_nil = λ _. refl }

run-Passed_example :
    Passed
      ([] ++ bytes_of ((frame, false) ∷ ([], true) ∷ []))
      (run runtime cfg (clients ((frame, false) ∷ ([], true) ∷ [])) session)
run-Passed_example =
    run-Passed runtime cfg [] ((frame, false) ∷ ([], true) ∷ []) session (unfold start in refl) refl
      (unfold start in refl) session-IsGathered

-- The last data leave fewer bytes than `need`: the end of the stream is not passed on.
end_is_lost :
    (run runtime cfg
      (from_client (take 3 frame) false ∷ from_client (0 ∷ []) true ∷ [])
      session).out
    ≡ []
unfolding run on on_data on_mode on_segment start pump pump_loop pump_step peek check_head
end_is_lost = refl

-- After a kill what the upstream sends still reaches the client.
down_after_kill :
    (on_downstream runtime (codes "more") false (record session { killed = true })).out
    ≡ down (codes "more") false ∷ []
unfolding on_downstream start
down_after_kill = refl

-- The Close frame for the upstream goes to the client when the upstream's answer is the violation.
close_goes_down :
    (on_downstream runtime (codes "HTTP/1.1 101 x") false (record session { mode = plain })).out
    ≡ farewell to_client (codes "protocol") (codes "unclassified-upgrade")
unfolding on_downstream start violate_by is_switch starts_with from_utf8_lossy
close_goes_down = refl
