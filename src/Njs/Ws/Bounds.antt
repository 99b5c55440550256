-- ===== src/Njs/Ws/Bounds.antt =====
-- What a session of core/njs/shield_ws.js holds stays bounded, whatever is sent to it.
use fips_shield.Std.Text.{codes, Text}
use fips_shield.Std.Utf8.{as_bytes, from_utf8_lossy, Bytes}
use fips_shield.Base.{
  if◌then◌else◌, ◌-◌, ◌∙◌, take, ℕ, suc, ◌+◌, ◌≤◌, ◌≡◌, refl, ◌⊎◌, inl, inr, Bool, true, false,
  Option, none, some, List, [], ◌∷◌, ◌++◌, arith, length, ltb, Bool-cases, drop,
}
use fips_shield.Njs.Runtime.{Runtime}
use fips_shield.Njs.Bans.{Cache}
use fips_shield.Njs.Session.{
  emit, up, Out, sent, Cfg, Account, State, Mode, handshake, ws, plain, concat, violate, violate_by,
  max_handshake,
}
use fips_shield.Njs.Frames.{pump}
use fips_shield.Njs.Frames.Bounds.{IsBounded, pump-IsBounded}
use fips_shield.Njs.Frames.Small.{IsMerged, IsSmall, pump-IsSmall}
use fips_shield.Njs.Ws.{
  header_block_end, on_block, end_of, classify, on_handshake, on_segment, recheck, on_mode, on_data,
  on_downstream, start,
}
use fips_shield.Njs.Ws.Sessions.{Event, from_client, from_upstream, on, run}

-- What is held of frames is bounded, and so is what waits for the rest of a frame and, while the
-- session lives, of the handshake.
pub record IsHeld (cfg : Cfg) (st : State) : Type 0 where
  pub bounded : IsBounded cfg st
  pub small : IsSmall cfg st
  pub head : (st.killed ≡ true) ⊎ (length st.hs ≤ max_handshake)
  pub apart : (st.mode ≡ ws) ⊎ (st.pending_len ≡ 0)

module _ (R : Runtime) (cfg : Cfg) where
  pump-IsHeld : (st : State) → IsBounded cfg st → IsMerged st → IsHeld cfg (pump R cfg st)
  pump-IsHeld st b m =
      let (merged, small) = pump-IsSmall R cfg (suc (length st.acc)) st (omega arith) m in
      record {
        bounded = pump-IsBounded R cfg (suc (length st.acc)) st (omega arith) b;
        small = small;
        head = inr merged.shaken;
        apart = inr merged.merged;
      }

  violate_by-IsHeld :
      (send : Bytes → Out) (rule detail : Text) (st : State)
      → st.killed ≡ false
      → IsBounded cfg st
      → IsHeld cfg (violate_by send rule detail st)
  unfolding violate_by
  violate_by-IsHeld send rule detail st k v = ground arith

  violate-IsHeld :
      (rule detail : Text) (st : State)
      → st.killed ≡ false
      → IsBounded cfg st
      → IsHeld cfg (violate rule detail st)
  unfolding violate
  violate-IsHeld = violate_by-IsHeld sent

  on_segment-IsHeld :
      (d : Bytes) (st : State)
      → st.mode ≡ ws
      → st.killed ≡ false
      → IsHeld cfg st
      → IsHeld cfg (on_segment R cfg d st).0
  unfolding on_segment
  on_segment-IsHeld d st m k v =
      let st2 = record st {
        msg_reads = st.msg_reads + 1;
        acc = st.acc ++ concat (st.chunks ++ (d ∷ []));
        chunks = [];
        pending_len = 0;
      } in
      let b : IsBounded cfg (record st { msg_reads = st.msg_reads + 1 }) = ground arith in
      let b2 : IsBounded cfg st2 = ground arith in
      let m2 : IsMerged st2 = ground arith in
      ground (
        arith,
        violate-IsHeld (codes "frame-flood") (codes "message-drip")
            (record st { msg_reads = st.msg_reads + 1 }) k b,
        pump-IsHeld st2 b2 m2,
      )

  classify-IsHeld :
      (end : ℕ) (st : State)
      → st.killed ≡ false
      → st.pending_len ≡ 0
      → IsHeld cfg st
      → IsHeld cfg (classify R cfg end st)
  unfolding classify
  classify-IsHeld end st k p v =
      let head = as_bytes (from_utf8_lossy (take end st.hs)) in
      let st2 = record st {
        mode = ws;
        hs = [];
        acc = drop end st.hs;
        out = st.out ++ (up head false ∷ []);
      } in
      let b2 : IsBounded cfg st2 = ground arith in
      let m2 : IsMerged st2 = ground arith in
      ground (
        arith,
        violate-IsHeld (codes "protocol") (codes "bare-lf-in-handshake") st k v.bounded,
        pump-IsHeld st2 b2 m2,
      )

  on_block-IsHeld :
      (found : Option ℕ) (st : State)
      → st.killed ≡ false
      → st.pending_len ≡ 0
      → IsHeld cfg st
      → IsHeld cfg (on_block R found cfg st).0
  unfolding on_block
  on_block-IsHeld none st k p v = v
  on_block-IsHeld (some end) st k p v = classify-IsHeld end st k p v

  on_handshake-IsHeld :
      (d : Bytes) (st : State)
      → st.killed ≡ false
      → st.pending_len ≡ 0
      → IsHeld cfg st
      → IsHeld cfg (on_handshake R cfg d st).0
  unfolding on_handshake
  on_handshake-IsHeld d st k p v =
      let st1 = record st { hs_reads = st.hs_reads + 1 } in
      let st2 = record st1 { hs = st.hs ++ d } in
      let b1 : IsBounded cfg st1 = ground arith in
      let b2 : IsBounded cfg st2 = ground arith in
      ground (
        arith,
        violate-IsHeld (codes "protocol") (codes "handshake-drip") st1 k b1,
        violate-IsHeld (codes "oversized-handshake") [] st2 k b2,
        on_block-IsHeld (header_block_end (st.hs ++ d) (st.hs_scanned - 2))
            (record st2 { hs_scanned = length (st.hs ++ d) }) k p,
      )

  emit-IsHeld : (os : List Out) (st : State) → IsHeld cfg st → IsHeld cfg (emit os st)
  emit-IsHeld os st v = ground arith

  end_of-IsHeld :
      (goes_on last : Bool) (st : State)
      → IsHeld cfg st
      → IsHeld cfg (if goes_on then end_of last st else st)
  end_of-IsHeld goes_on last st v = ground (arith, emit-IsHeld (up [] true ∷ []) st v)

  on_mode-IsHeld :
      (m : Mode) (d : Bytes) (last : Bool) (st : State)
      → st.mode ≡ m
      → st.killed ≡ false
      → IsHeld cfg st
      → IsHeld cfg (on_mode R m cfg d last st)
  unfolding on_mode
  on_mode-IsHeld plain d last st m k v = emit-IsHeld (up d last ∷ []) st v
  on_mode-IsHeld handshake d last st m k v = elim (Bool-cases (ltb 0 (length d))) [
    | inl e ↦
        let p : st.pending_len ≡ 0 = ground (arith, v.apart) in
        rw e (
          end_of-IsHeld (on_handshake R cfg d st).1 last (on_handshake R cfg d st).0
            (on_handshake-IsHeld d st k p v))
    | inr e ↦ rw e (end_of-IsHeld true last st v)
  ]
  on_mode-IsHeld ws d last st m k v = elim (Bool-cases (ltb 0 (length d))) [
    | inl e ↦ rw e (
        end_of-IsHeld (on_segment R cfg d st).1 last (on_segment R cfg d st).0
          (on_segment-IsHeld d st m k v))
    | inr e ↦ rw e (end_of-IsHeld true last st v)
  ]

  recheck-IsHeld :
      (st : State)
      → IsHeld cfg st
      → IsHeld cfg (recheck R cfg st).1 × ((recheck R cfg st).1.killed ≡ st.killed)
  unfolding recheck
  recheck-IsHeld st v = ground arith

  on_data-IsHeld :
      (d : Bytes) (last : Bool) (st : State) → IsHeld cfg st → IsHeld cfg (on_data R cfg d last st)
  unfolding on_data
  on_data-IsHeld d last st v = elim (Bool-cases st.killed) [
    | inl k ↦ ground arith
    | inr k ↦
        let (v', k') = recheck-IsHeld st v in
        ground (
          arith,
          on_mode-IsHeld st.mode d last st refl k v,
          on_mode-IsHeld (recheck R cfg st).1.mode d last (recheck R cfg st).1 refl (k' ∙ k) v',
          violate-IsHeld (codes "banned") (codes "session-cut") (recheck R cfg st).1 (k' ∙ k)
              v'.bounded,
        )
  ]

  on_downstream-IsHeld :
      (d : Bytes) (last : Bool) (st : State)
      → IsHeld cfg st
      → IsHeld cfg (on_downstream R d last st)
  unfolding on_downstream violate_by
  on_downstream-IsHeld d last st v = ground arith

  run-IsHeld : (es : List Event) (st : State) → IsHeld cfg st → IsHeld cfg (run R cfg es st)
  unfolding run on
  run-IsHeld [] st v = v
  run-IsHeld (from_client d last ∷ es) st v = run-IsHeld es _ (on_data-IsHeld d last st v)
  run-IsHeld (from_upstream d last ∷ es) st v = run-IsHeld es _ (on_downstream-IsHeld d last st v)

  start-IsHeld : (a : Account) (check_at : ℕ) (c : Cache) → IsHeld cfg (start a check_at c)
  unfolding start
  start-IsHeld a check_at c = ground arith

  -- Whatever the client and the upstream send, and in whatever segments, a session holds at most 256
  -- frames and 64 fragments of a message, no more bytes of them than `maxMsg`, and has at most
  -- `maxSubs` subscriptions open. Until it is over, what waits for the rest of a frame is shorter
  -- than 139 bytes and `maxMsg` together, and at most 16384 bytes of a handshake are held.
  pub run-start-IsHeld :
      (es : List Event) (a : Account) (check_at : ℕ) (c : Cache)
      → IsHeld cfg (run R cfg es (start a check_at c))
  run-start-IsHeld es a check_at c = run-IsHeld es (start a check_at c) (start-IsHeld a check_at c)
