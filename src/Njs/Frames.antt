-- ===== src/Njs/Frames.antt =====
-- `pump` of core/njs/shield_ws.js: the frames of RFC 6455 that have arrived.
pub mod Prefix
pub mod Extend
pub mod Steps
pub mod Progress
pub mod Pump
pub mod Bounds
pub mod Small
pub mod Restart
pub mod Waiting
pub mod Relay
pub mod Release
use Prim.Native.Nat.{bit_xor}
use fips_shield.Base.{
  unwrap_or, ℕ, zero, suc, ◌+◌, ◌*◌, ◌/◌, ◌%◌, ◌<◌, ◌≡◌, refl, Bool, true, false, not, ◌&&◌, ◌||◌,
  Option, none, some, List, [], ◌∷◌, ◌++◌, ltb, leb, ◌==◌, if◌then◌else◌, length, take, drop,
}
use fips_shield.Std.Text.{Text, codes}
use fips_shield.Std.Number.{to_text}
use fips_shield.Std.Utf8.{Bytes}
use fips_shield.Njs.Runtime.{Runtime}
use fips_shield.Njs.Session.{Cfg, State, concat, violate, flush, max_pending_frames, max_fragments}
use fips_shield.Njs.Filters.{Violation}
use fips_shield.Njs.Inspect.{inspect}

pub record Head : Type 0 where
  pub fin : Bool
  pub op : ℕ
  pub len : ℕ
  -- where the masking key stands
  pub off : ℕ

-- What the bytes at hand say of the frame at their front.
pub data Peek : Type 0 where
  -- so many bytes are needed to say more
  wait : ℕ → Peek
  refused : Text → Text → Peek
  head : Head → Peek

-- `readUInt16BE` and `readUInt32BE`, after a number so far.
abbrev be : ℕ → Bytes → ℕ
be n [] = n
be n (b ∷ bs) = be (n * 256 + b) bs

abbrev protocol : Text → Peek
protocol detail = refused (codes "protocol") detail

-- The length of the payload, from the seven bits of the second byte and the bytes after it.
unfoldable pub peek_length : Bool → ℕ → ℕ → Bytes → Peek
peek_length fin op len r =
    if len == 126
    then elim r [
      | b2 ∷ t ↦ elim t [
        | b3 ∷ u ↦ head (record { fin = fin; op = op; len = b2 * 256 + b3; off = 4 })
        | [] ↦ wait 4
      ]
      | [] ↦ wait 4
    ]
    else if len == 127
    then (if ltb (length r) 8
        then wait 10
        else if not (be 0 (take 4 r) == 0)
        then refused (codes "oversized-message") (codes "64bit-length")
        else head (record { fin = fin; op = op; len = be 0 (take 4 (drop 4 r)); off = 10 }))
    else head (record { fin = fin; op = op; len = len; off = 2 })

unfoldable pub peek : Bytes → Peek
unfolding peek_length
peek [] = wait 2
peek (b0 ∷ []) = wait 2
peek (b0 ∷ b1 ∷ r) =
    if not (b0 / 16 % 8 == 0)
    then protocol (codes "rsv-bits-set")
    else if ltb (b1 % 256) 128
    then protocol (codes "unmasked-client-frame")
    else peek_length (leb 128 (b0 % 256)) (b0 % 16) (b1 % 128) r

abbrev pub is_control : Head → Bool
is_control h = leb 8 h.op

-- The rule that a frame breaks by its head.
unfoldable pub check_head : Cfg → Head → State → Option Violation
check_head cfg h st =
    if is_control h
    then (if not h.fin || ltb 125 h.len
        then some (codes "protocol", codes "bad-control-frame")
        else none)
    else if h.op == 2
    then some (codes "binary-frame", [])
    else if not (h.op == 1) && not (h.op == 0)
    then some (codes "protocol", codes "opcode=" ++ to_text h.op)
    else if h.op == 1 && st.in_msg
    then some (codes "protocol", codes "text-before-fin")
    else if h.op == 0 && not st.in_msg
    then some (codes "protocol", codes "unexpected-continuation")
    else if ltb cfg.max_msg (st.msg_len + h.len)
    then some (codes "oversized-message", codes "max=" ++ to_text cfg.max_msg)
    else none

-- `payload[i] ^= key[i & 3]`: the key is turned by one with each byte.
unfoldable pub unmask : Bytes → Bytes → Bytes
unmask key [] = []
unmask [] (b ∷ p) = b ∷ p
unmask (k ∷ ks) (b ∷ p) = bit_xor b k ∷ unmask (ks ++ (k ∷ [])) p

-- The end of a frame in the bytes at hand.
abbrev pub frame_end : Head → ℕ
frame_end h = h.off + 4 + h.len

abbrev pub payload_of : Head → Bytes → Bytes
payload_of h acc = unmask (take 4 (drop h.off acc)) (take h.len (drop (h.off + 4) acc))

-- The frame is taken from the bytes at hand and held.
unfoldable pub hold : Head → State → State
hold h st = record st {
  need = 2;
  acc = drop (frame_end h) st.acc;
  pending = st.pending ++ (take (frame_end h) st.acc ∷ []);
}

-- The state after a step of the loop, and whether the loop goes on.
pub data Next : Type 0 where
  stop : State → Next
  again : State → Next

-- A control frame is forwarded unless a message is held in front of it.
unfoldable pub flush_unless : Bool → State → State
flush_unless true st = st
flush_unless false st = flush st

-- What follows an inspection.
unfoldable pub settle : Option Violation → State → State
settle none st = flush st
settle (some v) st = violate v.0 v.1 st

module _ (R : Runtime) where
  -- A message whose last frame is held.
  unfoldable pub complete : Cfg → State → State
  complete cfg st =
      let (ruling, a) = inspect R cfg (concat st.msg_parts) st.account in
      settle ruling
        (record st { in_msg = false; msg_parts = []; msg_len = 0; msg_reads = 0; account = a })

  -- A data frame that is held, with its payload.
  unfoldable pub on_data_frame : Cfg → Head → Bytes → State → State
  on_data_frame cfg h payload st =
      let st' = record st { msg_parts = st.msg_parts ++ (payload ∷ []) } in
      if ltb max_fragments (length st'.msg_parts)
      then violate (codes "frame-flood") (codes "fragments=" ++ to_text (length st'.msg_parts)) st'
      else if h.fin
      then complete cfg st'
      else record st' { msg_len = st'.msg_len + h.len; in_msg = true }

  -- A frame that is held, with its payload.
  unfoldable pub on_held : Cfg → Head → Bytes → State → State
  on_held cfg h payload st =
      if ltb max_pending_frames (length st.pending)
      then violate (codes "frame-flood") (codes "pending=" ++ to_text (length st.pending)) st
      else if is_control h
      then flush_unless st.in_msg st
      else on_data_frame cfg h payload st

  unfoldable pub on_frame : Cfg → Head → State → State
  on_frame cfg h st = on_held cfg h (payload_of h st.acc) (hold h st)

  -- A frame whose head is in order.
  unfoldable pub on_fit : Cfg → Head → State → Next
  on_fit cfg h st =
      if ltb (length st.acc) (frame_end h)
      then stop (record st { need = frame_end h })
      else again (on_frame cfg h st)

  unfoldable pub on_check : Cfg → Head → Option Violation → State → Next
  unfolding on_fit
  on_check cfg h none st = on_fit cfg h st
  on_check cfg h (some v) st = stop (violate v.0 v.1 st)

  unfoldable pub on_peek : Cfg → Peek → State → Next
  unfolding on_check
  on_peek cfg (wait n) st = stop (record st { need = n })
  on_peek cfg (refused rule detail) st = stop (violate rule detail st)
  on_peek cfg (head h) st = on_check cfg h (check_head cfg h st) st

  unfoldable pub pump_step : Cfg → State → Next
  unfolding on_peek
  pump_step cfg st = on_peek cfg (peek st.acc) st

  -- The loop, by fuel; `none` if the fuel runs out.
  unfoldable pub pump_loop : ℕ → Cfg → State → Option State
  pump_loop zero cfg st = none
  pump_loop (suc fuel) cfg st = elim st.killed [
    | true ↦ some st
    | false ↦ elim (pump_step cfg st) [ stop st' ↦ some st' | again st' ↦ pump_loop fuel cfg st' ]
  ]

  -- The loop has fuel for each byte at hand.
  unfoldable pub pump : Cfg → State → State
  pump cfg st = unwrap_or st (pump_loop (suc (length st.acc)) cfg st)
