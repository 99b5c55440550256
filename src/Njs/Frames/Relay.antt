-- ===== src/Njs/Frames/Relay.antt =====
-- What a session of core/njs/shield_ws.js sends to the upstream: the bytes of the client.
use fips_shield.Base.{
  ℕ, zero, suc, ◌<◌, ◌≡◌, refl, sym, ap, ◌∙◌, subst, Bool, true, false, Option, none, some, List,
  [], ◌∷◌, ◌++◌, arith, length, append-nil, append_assoc, map, take, drop, take-append-drop, ltb,
  Bool-cases, inl, inr,
}
use fips_shield.Std.Text.{Text}
use fips_shield.Std.Utf8.{Bytes}
use fips_shield.Njs.Runtime.{Runtime}
use fips_shield.Njs.Session.{
  Cfg, State, Out, up, down, verdict, sent, concat, violate, farewell, close_frame, flush,
  max_pending_frames, max_fragments,
}
use fips_shield.Njs.Filters.{Violation}
use fips_shield.Njs.Inspect.{inspect}
use fips_shield.Njs.Frames.{
  Head, is_control, frame_end, payload_of, hold, settle, flush_unless, complete, on_data_frame,
  on_held, on_frame, pump,
}
use fips_shield.Njs.Frames.Steps.{waits, refuses, takes, pump_step-Outcome}
use fips_shield.Njs.Frames.Progress.{on_frame-shorter, violate-killed}
use fips_shield.Njs.Frames.Pump.{pump-killed, pump-stop, pump-again}

-- The bytes sent to the upstream.
abbrev pub upstream : List Out → Bytes
upstream [] = []
upstream (up b last ∷ os) = b ++ upstream os
upstream (down b last ∷ os) = upstream os
upstream (verdict rule detail ∷ os) = upstream os

pub upstream-append : (os ps : List Out) → upstream (os ++ ps) ≡ upstream os ++ upstream ps
upstream-append [] ps = refl
upstream-append (up b last ∷ os) ps =
    ap (λ t. b ++ t) (upstream-append os ps) ∙ sym (append_assoc b (upstream os) (upstream ps))
upstream-append (down b last ∷ os) ps = upstream-append os ps
upstream-append (verdict rule detail ∷ os) ps = upstream-append os ps

upstream-sent : (bs : List Bytes) → upstream (map sent bs) ≡ concat bs
upstream-sent [] = refl
upstream-sent (b ∷ bs) = ap (λ t. b ++ t) (upstream-sent bs)

pub concat-append : (bs cs : List Bytes) → concat (bs ++ cs) ≡ concat bs ++ concat cs
concat-append [] cs = refl
concat-append (b ∷ bs) cs =
    ap (λ t. b ++ t) (concat-append bs cs) ∙ sym (append_assoc b (concat bs) (concat cs))

-- What was sent, with the frames that are held and the bytes at hand behind it.
abbrev pub relayed : State → Bytes
relayed st = upstream st.out ++ (concat st.pending ++ st.acc)

-- A session lives and has sent or holds exactly these bytes, or it is over and has sent a prefix of
-- them and a Close frame.
pub data Relays (b : Bytes) (r : State) : Type 0 where
  lives : r.killed ≡ false → relayed r ≡ b → Relays b r
  dies :
      (rule : Text) (kept rest : Bytes)
      → r.killed ≡ true
      → b ≡ kept ++ rest
      → upstream r.out ≡ kept ++ close_frame 1008 rule true
      → Relays b r

-- A violation sends a Close frame to the upstream, and nothing else.
pub upstream-violate :
    (rule detail : Text) (st : State)
    → st.killed ≡ false
    → upstream (violate rule detail st).out ≡ upstream st.out ++ close_frame 1008 rule true
unfolding violate farewell
upstream-violate rule detail st k =
    let farewells = farewell sent rule detail in
    simp k (
      upstream-append st.out farewells
      ∙ ap (λ t. upstream st.out ++ t) (append-nil (close_frame 1008 rule true)))

module _ (b : Bytes) where
  pub violate-Relays :
      (rule detail : Text) (st : State)
      → st.killed ≡ false
      → relayed st ≡ b
      → Relays b (violate rule detail st)
  violate-Relays rule detail st k e =
      dies rule (upstream st.out) (concat st.pending ++ st.acc) (violate-killed rule detail st)
        (sym e) (upstream-violate rule detail st k)

  flush-Relays : (st : State) → st.killed ≡ false → relayed st ≡ b → Relays b (flush st)
  unfolding flush
  flush-Relays st k e = lives k (
      ap (λ t. t ++ st.acc)
        (upstream-append st.out (map sent st.pending)
          ∙ ap (λ t. upstream st.out ++ t) (upstream-sent st.pending))
      ∙ append_assoc (upstream st.out) (concat st.pending) st.acc
      ∙ e)

  settle-Relays :
      (ruling : Option Violation) (st : State)
      → st.killed ≡ false
      → relayed st ≡ b
      → Relays b (settle ruling st)
  unfolding settle
  settle-Relays none st k e = flush-Relays st k e
  settle-Relays (some v) st k e = violate-Relays v.0 v.1 st k e

  flush_unless-Relays :
      (held : Bool) (st : State)
      → st.killed ≡ false
      → relayed st ≡ b
      → Relays b (flush_unless held st)
  unfolding flush_unless
  flush_unless-Relays true st k e = lives k e
  flush_unless-Relays false st k e = flush-Relays st k e

  hold-relayed : (h : Head) (st : State) → relayed st ≡ b → relayed (hold h st) ≡ b
  unfolding hold
  hold-relayed h st e =
      ap (λ t. upstream st.out ++ t)
        (ap (λ t. t ++ drop (frame_end h) st.acc)
            (concat-append st.pending (take (frame_end h) st.acc ∷ [])
              ∙ ap (λ t. concat st.pending ++ t) (append-nil (take (frame_end h) st.acc)))
          ∙ append_assoc (concat st.pending) (take (frame_end h) st.acc) (drop (frame_end h) st.acc)
          ∙ ap (λ t. concat st.pending ++ t) (take-append-drop (frame_end h) st.acc))
      ∙ e

module _ (R : Runtime) (cfg : Cfg) (b : Bytes) where
  complete-Relays : (st : State) → st.killed ≡ false → relayed st ≡ b → Relays b (complete R cfg st)
  unfolding complete
  complete-Relays st k e = settle-Relays b (inspect R cfg (concat st.msg_parts) st.account).0 _ k e

  on_data_frame-Relays :
      (h : Head) (payload : Bytes) (st : State)
      → st.killed ≡ false
      → relayed st ≡ b
      → Relays b (on_data_frame R cfg h payload st)
  unfolding on_data_frame
  on_data_frame-Relays h payload st k e =
      elim (Bool-cases (ltb max_fragments (length (st.msg_parts ++ (payload ∷ []))))) [
        | inl c ↦ rw c (violate-Relays b _ _ _ k e)
        | inr c ↦ elim (Bool-cases h.fin) [
          | inl f ↦ rw (c, f) (complete-Relays _ k e)
          | inr f ↦ rw (c, f) (lives k e)
        ]
      ]

  on_held-Relays :
      (h : Head) (payload : Bytes) (st : State)
      → st.killed ≡ false
      → relayed st ≡ b
      → Relays b (on_held R cfg h payload st)
  unfolding on_held
  on_held-Relays h payload st k e = elim (Bool-cases (ltb max_pending_frames (length st.pending))) [
    | inl c ↦ rw c (violate-Relays b _ _ st k e)
    | inr c ↦ elim (Bool-cases (is_control h)) [
      | inl d ↦ rw (c, d) (flush_unless-Relays b st.in_msg st k e)
      | inr d ↦ rw (c, d) (on_data_frame-Relays h payload st k e)
    ]
  ]

  on_frame-Relays :
      (h : Head) (st : State) → st.killed ≡ false → relayed st ≡ b → Relays b (on_frame R cfg h st)
  unfolding on_frame hold
  on_frame-Relays h st k e =
      on_held-Relays h (payload_of h st.acc) (hold h st) k (hold-relayed b h st e)

  pub pump-Relays :
      (n : ℕ) (st : State)
      → length st.acc < n
      → st.killed ≡ false
      → relayed st ≡ b
      → Relays b (pump R cfg st)
  pump-Relays zero st h k e = absurd (omega arith)
  pump-Relays (suc n) st h k e = elim (pump_step-Outcome R cfg st) [
    | waits m few le s more ↦ subst (Relays b) (sym (pump-stop R cfg st _ k s)) (lives k e)
    | refuses rule detail s more ↦
        subst (Relays b) (sym (pump-stop R cfg st _ k s)) (violate-Relays b rule detail st k e)
    | takes hd seen two fits c s more ↦
        let f = on_frame R cfg hd st in
        let shorter = on_frame-shorter R cfg hd st two fits in
        subst (Relays b) (sym (pump-again R cfg st f k s (omega arith)))
          (elim (on_frame-Relays hd st k e) [
            | lives k' e' ↦ pump-Relays n f (omega arith) k' e'
            | dies rule kept rest k' p q ↦
                subst (Relays b) (sym (pump-killed R cfg f k')) (dies rule kept rest k' p q)
          ])
  ]
