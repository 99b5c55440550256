-- ===== src/Njs/Frames/Bounds.antt =====
-- What a session of core/njs/shield_ws.js holds is bounded.
use fips_shield.Base.{
  zero, sym, true, false, ◌<◌, inr, inl, Bool-cases, Bool, ℕ, suc, ◌+◌, ◌≤◌, ◌≡◌, refl, ap, none,
  some, List, [], ◌∷◌, ◌++◌, arith, length, length-append, length-take, take, drop, Option, ltb,
  subst,
}
use fips_shield.Njs.Frames.{
  pump, hold, flush_unless, on_frame, on_held, Head, check_head, is_control, frame_end, payload_of,
  unmask, settle, complete, on_data_frame,
}
use fips_shield.Std.Text.{Text}
use fips_shield.Std.Utf8.{Bytes}
use fips_shield.Njs.Runtime.{Runtime}
use fips_shield.Njs.Filters.{Violation}
use fips_shield.Njs.Session.{Cfg, State, concat, violate, flush, max_pending_frames, max_fragments}
use fips_shield.Njs.Inspect.{inspect}
use fips_shield.Njs.Inspect.Subs.{IsCounted, inspect-IsCounted}
use fips_shield.Njs.Frames.Steps.{waits, refuses, takes, pump_step-Outcome}
use fips_shield.Njs.Frames.Progress.{on_frame-shorter}
use fips_shield.Njs.Frames.Pump.{pump-killed, pump-stop, pump-again}

-- The frames that are held, the fragments of a message and their bytes, and the subscriptions are
-- within their limits.
pub record IsBounded (cfg : Cfg) (st : State) : Type 0 where
  pub frames : length st.pending ≤ max_pending_frames
  pub fragments : length st.msg_parts ≤ max_fragments
  pub bytes : length (concat st.msg_parts) ≤ st.msg_len
  pub size : st.msg_len ≤ cfg.max_msg
  pub open_le : length st.account.subs ≤ st.account.sub_count
  pub count_le : st.account.sub_count ≤ cfg.max_subs

length-unmask : (key p : Bytes) → length (unmask key p) ≡ length p
unfolding unmask
length-unmask [] [] = refl
length-unmask (k ∷ key) [] = refl
length-unmask [] (b ∷ p) = refl
length-unmask (k ∷ key) (b ∷ p) = ap suc (length-unmask (key ++ (k ∷ [])) p)

length-payload_of :
    (h : Head) (b : Bytes) → frame_end h ≤ length b → length (payload_of h b) ≤ h.len
length-payload_of h b k = omega (
  arith,
  length-unmask (take 4 (drop h.off b)) (take h.len (drop (h.off + 4) b)),
  length-take h.len (drop (h.off + 4) b),
)

length-concat_snoc :
    (ps : List Bytes) (p : Bytes) → length (concat (ps ++ (p ∷ []))) ≡ length (concat ps) + length p
length-concat_snoc [] p = omega (arith, length-append p [])
length-concat_snoc (q ∷ ps) p = omega (
  arith,
  length-append q (concat (ps ++ (p ∷ []))),
  length-append q (concat ps),
  length-concat_snoc ps p,
)

module _ (R : Runtime) (cfg : Cfg) where
  pub violate-IsBounded :
      (rule detail : Text) (st : State)
      → st.msg_len ≤ cfg.max_msg
      → IsCounted cfg st.account
      → st.killed ≡ false
      → IsBounded cfg (violate rule detail st)
  unfolding violate
  violate-IsBounded rule detail st s v k = ground arith

  settle-IsBounded :
      (ruling : Option Violation) (st : State)
      → st.killed ≡ false
      → st.msg_parts ≡ []
      → st.msg_len ≤ cfg.max_msg
      → IsCounted cfg st.account
      → IsBounded cfg (settle ruling st)
  unfolding settle flush
  settle-IsBounded none st k p s v = ground arith
  settle-IsBounded (some x) st k p s v = violate-IsBounded x.0 x.1 st s v k

  counted : (st : State) → IsBounded cfg st → IsCounted cfg st.account
  counted st v = record { open_le = v.open_le; count_le = v.count_le }

  complete-IsBounded :
      (st : State)
      → st.killed ≡ false
      → IsCounted cfg st.account
      → IsBounded cfg (complete R cfg st)
  unfolding complete
  complete-IsBounded st k v =
      settle-IsBounded (inspect R cfg (concat st.msg_parts) st.account).0 _ k refl (omega arith)
        (inspect-IsCounted R cfg (concat st.msg_parts) st.account v)

  on_data_frame-IsBounded :
      (h : Head) (payload : Bytes) (st : State)
      → st.killed ≡ false
      → length payload ≤ h.len
      → st.msg_len + h.len ≤ cfg.max_msg
      → IsBounded cfg st
      → IsBounded cfg (on_data_frame R cfg h payload st)
  unfolding on_data_frame violate
  on_data_frame-IsBounded h payload st k p m v = ground (
    arith,
    length-concat_snoc st.msg_parts payload,
    complete-IsBounded (record st { msg_parts = st.msg_parts ++ (payload ∷ []) }) k (counted st v),
  )

  check_head-size :
      (h : Head) (st : State)
      → check_head cfg h st ≡ none
      → is_control h ≡ false
      → st.msg_len + h.len ≤ cfg.max_msg
  unfolding check_head
  check_head-size h st e c = ground arith

  flush_unless-IsBounded :
      (held : Bool) (st : State) → IsBounded cfg st → IsBounded cfg (flush_unless held st)
  unfolding flush_unless flush
  flush_unless-IsBounded true st v = v
  flush_unless-IsBounded false st v = ground arith

  widen : (m : ℕ) (st : State) → IsBounded cfg st → IsBounded cfg (record st { need = m })
  widen m st v = ground arith

  on_held-IsBounded :
      (h : Head) (payload : Bytes) (st : State)
      → st.killed ≡ false
      → length payload ≤ h.len
      → (is_control h ≡ false → st.msg_len + h.len ≤ cfg.max_msg)
      → length st.msg_parts ≤ max_fragments
      → length (concat st.msg_parts) ≤ st.msg_len
      → st.msg_len ≤ cfg.max_msg
      → IsCounted cfg st.account
      → IsBounded cfg (on_held R cfg h payload st)
  unfolding on_held
  on_held-IsBounded h payload st k p m f b s v =
      elim (Bool-cases (ltb max_pending_frames (length st.pending))) [
        | inl e ↦ rw e (violate-IsBounded _ _ st s v k)
        | inr e ↦
            let all : IsBounded cfg st = ground arith in
            elim (Bool-cases (is_control h)) [
              | inl c ↦ rw (e, c) (flush_unless-IsBounded st.in_msg st all)
              | inr c ↦ rw (e, c) (on_data_frame-IsBounded h payload st k p (m c) all)
            ]
      ]

  on_frame-IsBounded :
      (h : Head) (st : State)
      → st.killed ≡ false
      → frame_end h ≤ length st.acc
      → check_head cfg h st ≡ none
      → IsBounded cfg st
      → IsBounded cfg (on_frame R cfg h st)
  unfolding on_frame hold
  on_frame-IsBounded h st k fits c v =
      on_held-IsBounded h (payload_of h st.acc) (hold h st) k (length-payload_of h st.acc fits)
        (check_head-size h st c) v.fragments v.bytes v.size (counted st v)

  -- However many frames have arrived, `pump` keeps what the session holds within its limits.
  pub pump-IsBounded :
      (n : ℕ) (st : State) → length st.acc < n → IsBounded cfg st → IsBounded cfg (pump R cfg st)
  pump-IsBounded zero st h v = absurd (omega arith)
  pump-IsBounded (suc n) st h v = elim (Bool-cases st.killed) [
    | inl k ↦ subst (IsBounded cfg) (sym (pump-killed R cfg st k)) v
    | inr k ↦ elim (pump_step-Outcome R cfg st) [
      | waits m few le e more ↦
          subst (IsBounded cfg) (sym (pump-stop R cfg st (record st { need = m }) k e))
            (widen m st v)
      | refuses rule detail e more ↦
          subst (IsBounded cfg) (sym (pump-stop R cfg st (violate rule detail st) k e))
            (violate-IsBounded rule detail st v.size (counted st v) k)
      | takes hd seen two fits c e more ↦
          let shorter = on_frame-shorter R cfg hd st two fits in
          subst (IsBounded cfg) (sym (pump-again R cfg st (on_frame R cfg hd st) k e (omega arith)))
            (pump-IsBounded n (on_frame R cfg hd st) (omega arith)
              (on_frame-IsBounded hd st k fits c v))
    ]
  ]
