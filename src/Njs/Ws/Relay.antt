-- ===== src/Njs/Ws/Relay.antt =====
-- A session of core/njs/shield_ws.js that reads frames sends what the client sends, or a prefix of it
-- and a Close frame.
use fips_shield.Base.{
  suc, ◌+◌, ◌≡◌, refl, sym, ap, ◌∙◌, subst, Bool, true, false, not, ◌&&◌, List, [], ◌∷◌, ◌++◌,
  arith, length, append-nil, append_assoc, ltb, leb, Bool-cases, inl, inr, if◌then◌else◌,
}
use fips_shield.Std.Text.{Text, codes}
use fips_shield.Std.Utf8.{Bytes}
use fips_shield.Njs.Runtime.{Runtime}
use fips_shield.Njs.Session.{is_path, Cfg, State, up, emit, ws, concat, close_frame, violate}
use fips_shield.Njs.Frames.{pump}
use fips_shield.Njs.Frames.Progress.{violate-killed}
use fips_shield.Njs.Frames.Waiting.{pump-Rested}
use fips_shield.Njs.Frames.Relay.{
  upstream, upstream-append, upstream-violate, relayed, lives, dies, pump-Relays,
}
use fips_shield.Njs.Frames.Release.{IsGathered, regathered, Released-IsGathered, pump-Released}
use fips_shield.Njs.Ws.{is_plain, on_segment, on_mode, on_data, recheck, end_of}
use fips_shield.Njs.Ws.Sessions.{Event, from_client, on, run}
use fips_shield.Njs.Ws.Reads.{merged, merged-clear, concat-snoc}

-- The session goes on and has sent or holds exactly these bytes, where the frames that it holds are
-- those of a message that is not complete, or it is over and has sent a prefix of them and a Close
-- frame.
pub data Passed (b : Bytes) (r : State) : Type 0 where
  goes_on : r.killed ≡ false → r.mode ≡ ws → relayed (merged r) ≡ b → IsGathered r → Passed b r
  is_over :
      (rule : Text) (kept rest : Bytes)
      → r.killed ≡ true
      → b ≡ kept ++ rest
      → upstream r.out ≡ kept ++ close_frame 1008 rule true
      → Passed b r

-- Data of the client, each with whether it is the last.
abbrev pub clients : List (Bytes × Bool) → List Event
clients [] = []
clients ((d, last) ∷ ds) = from_client d last ∷ clients ds

abbrev pub bytes_of : List (Bytes × Bool) → Bytes
bytes_of [] = []
bytes_of ((d, last) ∷ ds) = d ++ bytes_of ds

violate-Passed :
    (b d : Bytes) (rule detail : Text) (st : State)
    → st.killed ≡ false
    → relayed (merged st) ≡ b
    → Passed (b ++ d) (violate rule detail st)
violate-Passed b d rule detail st k e =
    is_over rule (upstream st.out) ((concat st.pending ++ (merged st).acc) ++ d)
      (violate-killed rule detail st)
      (ap (λ t. t ++ d) (sym e)
        ∙ append_assoc (upstream st.out) (concat st.pending ++ (merged st).acc) d)
      (upstream-violate rule detail st k)

-- The end of the stream adds no bytes.
end_of-Passed : (b : Bytes) (last : Bool) (st : State) → Passed b st → Passed b (end_of last st)
end_of-Passed b last st p = elim (Bool-cases (last && not st.killed)) [
  | inl c ↦ simp c (emit-Passed p)
  | inr c ↦ simp c p
]
  where
    same : upstream (st.out ++ (up [] true ∷ [])) ≡ upstream st.out
    same = upstream-append st.out (up [] true ∷ []) ∙ append-nil (upstream st.out)

    emit-Passed : Passed b st → Passed b (emit (up [] true ∷ []) st)
    emit-Passed (goes_on k m e g) =
        goes_on k m (ap (λ t. t ++ (concat st.pending ++ (merged st).acc)) same ∙ e)
          (regathered st (emit (up [] true ∷ []) st) refl refl refl g)
    emit-Passed (is_over rule kept rest k q u) = is_over rule kept rest k q (same ∙ u)

after-Passed :
    (b : Bytes) (more last : Bool) (st : State)
    → Passed b st
    → Passed b (if more then end_of last st else st)
after-Passed b true last st p = end_of-Passed b last st p
after-Passed b false last st p = p

module _ (R : Runtime) (cfg : Cfg) where
  pump-Passed :
      (b : Bytes) (st : State)
      → st.killed ≡ false
      → st.mode ≡ ws
      → st.chunks ≡ []
      → st.pending_len ≡ 0
      → relayed st ≡ b
      → IsGathered st
      → Passed b (pump R cfg st)
  pump-Passed b st k m c p e g =
      let (v, rest) = pump-Rested R cfg (suc (length st.acc)) st (omega arith) c p in
      elim (pump-Relays R cfg b (suc (length st.acc)) st (omega arith) k e) [
        | lives k' e' ↦
            goes_on k' (v.mode_eq ∙ m)
              (ap relayed (merged-clear (pump R cfg st) v.chunks_eq v.pending_eq) ∙ e')
              (Released-IsGathered R cfg st.out (pump R cfg st) k'
                (pump-Released R cfg (suc (length st.acc)) st (omega arith) k g))
        | dies rule kept left k' q u ↦ is_over rule kept left k' q u
      ]

  -- More bytes behind those that are held.
  joined-relayed :
      (b d : Bytes) (st : State)
      → relayed (merged st) ≡ b
      → upstream st.out ++ (concat st.pending ++ (st.acc ++ concat (st.chunks ++ (d ∷ []))))
        ≡ b ++ d
  joined-relayed b d st e =
      ap (λ t. upstream st.out ++ (concat st.pending ++ (st.acc ++ t))) (concat-snoc st.chunks d)
      ∙ simp append_assoc refl
      ∙ ap (λ t. t ++ d) e

  on_segment-Passed :
      (b d : Bytes) (st : State)
      → st.killed ≡ false
      → st.mode ≡ ws
      → relayed (merged st) ≡ b
      → IsGathered st
      → Passed (b ++ d) (on_segment R cfg d st).0
  unfolding on_segment
  on_segment-Passed b d st k m e g = elim (Bool-cases (ltb cfg.max_msg_reads (st.msg_reads + 1))) [
    | inl c ↦ rw c (violate-Passed b d _ _ (record st { msg_reads = st.msg_reads + 1 }) k e)
    | inr c ↦ elim (Bool-cases (ltb (length st.acc + (st.pending_len + length d)) st.need)) [
      | inl f ↦ rw (c, f) (goes_on k m (joined-relayed b d st e) (regathered st _ refl refl refl g))
      | inr f ↦
          rw (c, f)
            (pump-Passed (b ++ d) _ k m refl refl (joined-relayed b d st e)
              (regathered st _ refl refl refl g))
    ]
  ]

  on_ws-Passed :
      (b d : Bytes) (last : Bool) (st : State)
      → st.killed ≡ false
      → st.mode ≡ ws
      → relayed (merged st) ≡ b
      → IsGathered st
      → Passed (b ++ d) (on_mode R ws cfg d last st)
  unfolding on_mode
  on_ws-Passed b [] last st k m e g =
      end_of-Passed (b ++ []) last st (goes_on k m (e ∙ sym (append-nil b)) g)
  on_ws-Passed b (c ∷ d) last st k m e g =
      let some_bytes : ltb 0 (length (c ∷ d)) ≡ true = ground arith in
      rw some_bytes (
        after-Passed (b ++ (c ∷ d)) (on_segment R cfg (c ∷ d) st).1 last
          (on_segment R cfg (c ∷ d) st).0 (on_segment-Passed b (c ∷ d) st k m e g))

  -- The check of the file of bans touches none of the bytes.
  recheck-same :
      (b : Bytes) (st : State)
      → st.killed ≡ false
      → st.mode ≡ ws
      → relayed (merged st) ≡ b
      → IsGathered st
      → ((recheck R cfg st).1.killed ≡ false)
        × ((recheck R cfg st).1.mode ≡ ws)
        × (relayed (merged (recheck R cfg st).1) ≡ b)
        × IsGathered (recheck R cfg st).1
  unfolding recheck
  recheck-same b st k m e g =
      elim (Bool-cases (leb st.ban_check_at (R.date_now st.account.ticks))) [
        | inl c ↦ simp c (k, m, e, regathered st _ refl refl refl g)
        | inr c ↦ simp c (k, m, e, regathered st _ refl refl refl g)
      ]

  on_data-Passed :
      (b d : Bytes) (last : Bool) (st : State)
      → st.killed ≡ false
      → st.mode ≡ ws
      → relayed (merged st) ≡ b
      → IsGathered st
      → Passed (b ++ d) (on_data R cfg d last st)
  unfolding on_data
  on_data-Passed b d last st k m e g =
      let (k', m', e', g') = recheck-same b st k m e g in
      let st' = (recheck R cfg st).1 in
      let banned = violate-Passed b d (codes "banned") (codes "session-cut") st' k' e' in
      let checked =
        subst (λ x. Passed (b ++ d) (on_mode R x cfg d last st')) (sym m')
          (on_ws-Passed b d last st' k' m' e' g') in
      let unchecked =
        subst (λ x. Passed (b ++ d) (on_mode R x cfg d last st)) (sym m)
          (on_ws-Passed b d last st k m e g) in
      elim (Bool-cases (not (is_plain R st.mode) && is_path cfg.ban_file)) [
        | inl c ↦ elim (Bool-cases (recheck R cfg st).0) [
          | inl x ↦ simp (k, c, x) banned
          | inr x ↦ simp (k, c, x) checked
        ]
        | inr c ↦ simp (k, c) unchecked
      ]

  on_data-over :
      (d : Bytes) (last : Bool) (st : State) → st.killed ≡ true → on_data R cfg d last st ≡ st
  unfolding on_data
  on_data-over d last st k = ground arith

  run-over :
      (ds : List (Bytes × Bool)) (st : State) → st.killed ≡ true → run R cfg (clients ds) st ≡ st
  unfolding run on
  run-over [] st k = refl
  run-over ((d, last) ∷ ds) st k =
      ap (run R cfg (clients ds)) (on_data-over d last st k) ∙ run-over ds st k

  -- Whatever a client sends to a session that reads frames, and however it is cut: the session goes
  -- on, and the bytes that were sent to the upstream and then those that are held make up exactly
  -- the bytes of the client, in order, and whole frames are held only of one message that is not
  -- complete; or the session is over, and a prefix of them was sent and then one Close frame. If the
  -- session holds frames at the start, they are those of one message that is not complete.
  pub run-Passed :
      (b : Bytes) (ds : List (Bytes × Bool)) (st : State)
      → st.killed ≡ false
      → st.mode ≡ ws
      → relayed (merged st) ≡ b
      → IsGathered st
      → Passed (b ++ bytes_of ds) (run R cfg (clients ds) st)
  unfolding run on
  run-Passed b [] st k m e g = goes_on k m (e ∙ sym (append-nil b)) g
  run-Passed b ((d, last) ∷ ds) st k m e g = elim (on_data-Passed b d last st k m e g) [
    | goes_on k' m' e' g' ↦
        subst (λ t. Passed t (run R cfg (clients ds) (on_data R cfg d last st)))
          (append_assoc b d (bytes_of ds))
          (run-Passed (b ++ d) ds (on_data R cfg d last st) k' m' e' g')
    | is_over rule kept rest k' q u ↦
        subst (Passed (b ++ (d ++ bytes_of ds))) (sym (run-over ds (on_data R cfg d last st) k')) (
          is_over rule kept (rest ++ bytes_of ds) k'
            (sym (append_assoc b d (bytes_of ds))
              ∙ ap (λ t. t ++ bytes_of ds) q
              ∙ append_assoc kept rest (bytes_of ds))
            u)
  ]
