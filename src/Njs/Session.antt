-- ===== src/Njs/Session.antt =====
-- The session of core/njs/shield_ws.js: its configuration, its state, what it sends, and the end of a
-- session that breaks a rule.
use fips_shield.Base.{
  ℕ, ◌+◌, ◌/◌, ◌%◌, ◌≡◌, refl, Bool, true, false, List, [], ◌∷◌, ◌++◌, ltb, if◌then◌else◌, length,
  map,
}
use fips_shield.Std.Text.{Text, codes}
use fips_shield.Std.Utf8.{Bytes, as_bytes}
use fips_shield.Njs.Bucket.{Bucket}
use fips_shield.Njs.Bans.{Cache}

-- `readCfg`, without the buckets, and the address of the peer. The knobs are whole numbers.
pub record Cfg : Type 0 where
  pub remote_address : Text
  pub ban_file : Text
  pub ban_recheck : ℕ
  pub max_msg : ℕ
  pub max_subs : ℕ
  pub max_filters : ℕ
  pub max_filter_items : ℕ
  pub max_limit : ℕ
  pub max_filter_value : ℕ
  pub require_narrowing : Bool
  pub max_hs_reads : ℕ
  pub max_msg_reads : ℕ
  pub types : List Text
  pub kind_deny : List Text

-- Whether a path is one: `''` is none.
abbrev pub is_path : Text → Bool
is_path [] = false
is_path (c ∷ s) = true

abbrev pub max_handshake : ℕ
max_handshake = 16384

abbrev pub max_pending_frames : ℕ
max_pending_frames = 256

abbrev pub max_fragments : ℕ
max_fragments = 64

pub data Mode : Type 0 where
  handshake : Mode
  ws : Mode
  plain : Mode

-- What a callback does, in order.
pub data Out : Type 0 where
  -- sent to the upstream, and whether it is the last of the stream
  up : Bytes → Bool → Out
  -- sent to the client, and whether it is the last of the stream
  down : Bytes → Bool → Out
  -- a verdict in the log, by its rule and its detail
  verdict : Text → Text → Out

-- What `inspect` reads and writes of a session: its subscriptions, the buckets of its configuration,
-- and the number of readings of the clock.
pub record Account : Type 0 where
  pub subs : List Text
  pub sub_count : ℕ
  pub b_msg : Bucket
  pub b_event : Bucket
  pub b_req : Bucket
  pub ticks : ℕ

pub record State : Type 0 where
  pub mode : Mode
  pub hs : Bytes
  pub hs_reads : ℕ
  pub hs_scanned : ℕ
  pub acc : Bytes
  pub chunks : List Bytes
  pub pending_len : ℕ
  pub need : ℕ
  pub msg_reads : ℕ
  pub pending : List Bytes
  pub msg_parts : List Bytes
  pub msg_len : ℕ
  pub in_msg : Bool
  pub account : Account
  pub ban_check_at : ℕ
  pub checked_response : Bool
  pub killed : Bool
  -- the cache of bans
  pub cache : Cache
  -- what was done so far
  pub out : List Out

abbrev pub emit : List Out → State → State
emit os st = record st { out = st.out ++ os }

-- `Buffer.concat`
abbrev pub concat : List Bytes → Bytes
concat [] = []
concat (b ∷ bs) = b ++ concat bs

-- `wsFrame`, for a payload shorter than 65536 bytes; `op` is below 128.
unfoldable pub ws_frame : ℕ → Bytes → Bool → Bytes
ws_frame op payload masked =
    let len = length payload in
    let mask = if masked then 0x80 else 0 in
    let key = if masked then 0 ∷ 0 ∷ 0 ∷ 0 ∷ [] else [] in
    (if ltb len 126
      then (0x80 + op) ∷ (mask + len) ∷ []
      else (0x80 + op) ∷ (mask + 126) ∷ (len / 256 % 256) ∷ (len % 256) ∷ [])
    ++ (key ++ payload)

unfoldable pub close_frame : ℕ → Text → Bool → Bytes
unfolding ws_frame
close_frame code reason masked =
    ws_frame 0x8 ((code / 256 % 256) ∷ (code % 256) ∷ as_bytes reason) masked

-- `JSON.stringify` of the notice; the names of rules have nothing to escape.
unfoldable pub notice : Text → Bytes
notice rule =
    as_bytes (codes "[\"NOTICE\",\"fips-shield: connection closed: " ++ (rule ++ codes "\"]"))

abbrev pub sent : Bytes → Out
sent b = up b false

abbrev pub to_client : Bytes → Out
to_client b = down b false

-- What a violation sends, where `s.send` sends in the direction of the callback.
unfoldable pub farewell : (Bytes → Out) → Text → Text → List Out
unfolding ws_frame close_frame notice
farewell send rule detail =
    verdict rule detail
    ∷ to_client (ws_frame 0x1 (notice rule) false)
    ∷ to_client (close_frame 1008 rule false)
    ∷ send (close_frame 1008 rule true)
    ∷ []

unfoldable pub violate_by : (Bytes → Out) → Text → Text → State → State
violate_by send rule detail st = if st.killed then st else (record st {
  killed = true;
  pending = [];
  msg_parts = [];
  chunks = [];
  pending_len = 0;
  out = st.out ++ farewell send rule detail;
})

-- In the callback for what the client sends.
unfoldable pub violate : Text → Text → State → State
unfolding violate_by
violate = violate_by sent

unfoldable pub flush : State → State
flush st = record st { out = st.out ++ map sent st.pending; pending = [] }

bye : close_frame 1008 (codes "x") true ≡ 0x88 ∷ 0x83 ∷ 0 ∷ 0 ∷ 0 ∷ 0 ∷ 3 ∷ 0xf0 ∷ b'x' ∷ []
unfolding close_frame as_bytes
bye = refl
