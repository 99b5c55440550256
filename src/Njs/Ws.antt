-- ===== src/Njs/Ws.antt =====
-- `filter` and `onData` of core/njs/shield_ws.js: a session from its handshake on.
pub mod Sessions
pub mod Bounds
pub mod Reads
pub mod Relay
pub mod Opened
pub mod HeaderBlock
pub mod Handshake
use fips_shield.Base.{
  ℕ, ◌+◌, ◌-◌, ◌*◌, Bool, true, false, not, ◌&&◌, ◌||◌, Option, none, some, [], ◌∷◌, ◌++◌, ltb, leb,
  ◌==◌, if◌then◌else◌, length, take, drop,
}
use fips_shield.Std.Text.{Text, codes, starts_with}
use fips_shield.Std.Utf8.{Bytes, as_bytes, from_utf8_lossy}
use fips_shield.Njs.Runtime.{Runtime}
use fips_shield.Njs.Bans.{Cache, is_banned}
use fips_shield.Njs.Session.{
  is_path, Cfg, Mode, handshake, ws, plain, Account, State, up, down, emit, concat, violate,
  violate_by, sent, to_client, max_handshake,
}
use fips_shield.Njs.Frames.{pump}

-- `headerBlockEnd`, of the bytes from `i` on.
unfoldable pub block_end : ℕ → Bytes → Option ℕ
block_end i [] = none
block_end i (a ∷ []) = none
block_end i (a ∷ b ∷ []) = if a == 10 && b == 10 then some (i + 2) else none
block_end i (a ∷ b ∷ c ∷ s) =
    let rest = block_end (i + 1) (b ∷ c ∷ s) in
    if not (a == 10)
    then rest
    else if b == 10
    then some (i + 2)
    else if b == 13 && c == 10
    then some (i + 3)
    else rest

-- `from || 0`, with a loop that starts below 0 for a negative `from`: the bytes there are undefined.
unfoldable pub header_block_end : Bytes → ℕ → Option ℕ
unfolding block_end
header_block_end buf from = block_end from (drop from buf)

-- `hasBareLf` of the bytes after one that is CR or is not.
unfoldable pub bare_lf : Bool → Bytes → Bool
bare_lf cr [] = false
bare_lf cr (c ∷ s) = (c == 10 && not cr) || bare_lf (c == 13) s

unfoldable pub has_bare_lf : Bytes → ℕ → Bool
unfolding bare_lf
has_bare_lf buf upto = bare_lf false (take upto buf)

-- A letter as a small one.
abbrev lower : ℕ → ℕ
lower c = if leb b'A' c && leb c b'Z' then c + 32 else c

-- Whether a text starts with these small letters, in whatever case.
unfoldable pub starts_with_i : Text → Text → Bool
starts_with_i s [] = true
starts_with_i [] (p ∷ ps) = false
starts_with_i (c ∷ s) (p ∷ ps) = lower c == p && starts_with_i s ps

unfoldable pub skip_blanks : Text → Text
skip_blanks [] = []
skip_blanks (c ∷ s) = let rest = skip_blanks s in if c == 32 || c == 9 then rest else c ∷ s

-- `/\r\nupgrade:[ \t]*websocket/i.test(head)`
unfoldable pub is_upgrade : Text → Bool
unfolding starts_with_i skip_blanks
is_upgrade [] = false
is_upgrade (c ∷ s) =
    (starts_with_i (c ∷ s) (codes "\r\nupgrade:")
      && starts_with_i (skip_blanks (drop 10 (c ∷ s))) (codes "websocket"))
    || is_upgrade s

-- `/^HTTP\/1\.[01] 101/.test(data.slice(0, 16).toString())`
unfoldable pub is_switch : Bytes → Bool
unfolding starts_with
is_switch b =
    let s = from_utf8_lossy (take 16 b) in
    starts_with s (codes "HTTP/1.0 101") || starts_with s (codes "HTTP/1.1 101")

-- `s.send('', { last: true })`, for the last segment
abbrev pub end_of : Bool → State → State
end_of last st = if last && not st.killed then emit (up [] true ∷ []) st else st

module _ (R : Runtime) where
  open R use {date_now}

  -- The header block is complete.
  unfoldable pub classify : Cfg → ℕ → State → State
  unfolding has_bare_lf is_upgrade
  classify cfg end st =
      if has_bare_lf st.hs end
      then violate (codes "protocol") (codes "bare-lf-in-handshake") st
      else (let head = from_utf8_lossy (take end st.hs) in
          let tail = drop end st.hs in
          let st' = emit (sent (as_bytes head) ∷ []) (record st { hs = [] }) in
          if is_upgrade head
          then pump R cfg (record st' { mode = ws; acc = tail })
          else (let st'' = record st' { mode = plain } in
              if ltb 0 (length tail) then emit (sent tail ∷ []) st'' else st''))

  -- What the search for the end of the header block found, and whether the callback goes on after it.
  unfoldable pub on_block : Option ℕ → Cfg → State → State × Bool
  on_block none cfg st = (st, false)
  on_block (some end) cfg st = (classify cfg end st, true)

  -- A segment of the handshake, and whether the callback goes on after it.
  unfoldable pub on_handshake : Cfg → Bytes → State → State × Bool
  unfolding header_block_end
  on_handshake cfg d st =
      let st1 = record st { hs_reads = st.hs_reads + 1 } in
      if ltb cfg.max_hs_reads st1.hs_reads
      then (violate (codes "protocol") (codes "handshake-drip") st1, false)
      else (let st2 = record st1 { hs = st1.hs ++ d } in
          if ltb max_handshake (length st2.hs)
          then (violate (codes "oversized-handshake") [] st2, false)
          else on_block (header_block_end st2.hs (st2.hs_scanned - 2)) cfg
              (record st2 { hs_scanned = length st2.hs }))

  -- A segment of frames, and whether the callback goes on after it.
  unfoldable pub on_segment : Cfg → Bytes → State → State × Bool
  on_segment cfg d st =
      let st1 = record st { msg_reads = st.msg_reads + 1 } in
      if ltb cfg.max_msg_reads st1.msg_reads
      then (violate (codes "frame-flood") (codes "message-drip") st1, false)
      else (let st2 = record st1 {
        chunks = st1.chunks ++ (d ∷ []);
        pending_len = st1.pending_len + length d;
      } in
          if ltb (length st2.acc + st2.pending_len) st2.need then (st2, false) else (
            pump R cfg
                (record st2 { acc = st2.acc ++ concat st2.chunks; chunks = []; pending_len = 0 }),
            true,
          ))

  -- The check of the file of bans, at most once in an interval: whether the peer is banned.
  unfoldable pub recheck : Cfg → State → Bool × State
  unfolding is_banned
  recheck cfg st =
      let now = date_now st.account.ticks in
      let a = record st.account { ticks = st.account.ticks + 1 } in
      if leb st.ban_check_at now
      then (let (banned, c) = is_banned R cfg.ban_file a.ticks cfg.remote_address st.cache in
          (
            banned,
            record st {
              ban_check_at = now + cfg.ban_recheck * 1000;
              cache = c;
              account = record a { ticks = a.ticks + 1 };
            },
          ))
      else (false, record st { account = a })

  -- What `onData` does with data in a mode once the ban is checked.
  unfoldable pub on_mode : Mode → Cfg → Bytes → Bool → State → State
  on_mode plain cfg d last st = emit (up d last ∷ []) st
  on_mode handshake cfg d last st =
      let (st', goes_on) = if ltb 0 (length d) then on_handshake cfg d st else (st, true) in
      if goes_on then end_of last st' else st'
  on_mode ws cfg d last st =
      let (st', goes_on) = if ltb 0 (length d) then on_segment cfg d st else (st, true) in
      if goes_on then end_of last st' else st'

  abbrev pub is_plain : Mode → Bool
  is_plain plain = true
  is_plain handshake = false
  is_plain ws = false

  unfoldable pub on_data : Cfg → Bytes → Bool → State → State
  on_data cfg d last st =
      if st.killed
      then st
      else if not (is_plain st.mode) && is_path cfg.ban_file
      then (let (banned, st') = recheck cfg st in
          if banned
          then violate (codes "banned") (codes "session-cut") st'
          else on_mode st'.mode cfg d last st')
      else on_mode st.mode cfg d last st

  -- The callback for what the upstream sends.
  unfoldable pub on_downstream : Bytes → Bool → State → State
  on_downstream d last st =
      if is_plain st.mode && not st.checked_response && ltb 0 (length d)
      then (let st' = record st { checked_response = true } in
          if is_switch d
          then violate_by to_client (codes "protocol") (codes "unclassified-upgrade") st'
          else emit (down d last ∷ []) st')
      else emit (down d last ∷ []) st

-- The session that `filter` starts with, given the buckets, the time of the first ban check and the
-- cache of bans.
unfoldable pub start : Account → ℕ → Cache → State
start a check_at c = record {
  mode = handshake;
  hs = [];
  hs_reads = 0;
  hs_scanned = 0;
  acc = [];
  chunks = [];
  pending_len = 0;
  need = 2;
  msg_reads = 0;
  pending = [];
  msg_parts = [];
  msg_len = 0;
  in_msg = false;
  account = record a { subs = []; sub_count = 0 };
  ban_check_at = check_at;
  checked_response = false;
  killed = false;
  cache = c;
  out = [];
}
