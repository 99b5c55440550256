-- ===== src/Njs/Frames/Extend.antt =====
-- A step of `pump` does the same when more bytes have arrived behind those that it takes.
use fips_shield.Base.{
  ℕ, ap, ◌∙◌, sym, Bool, true, false, ◌+◌, ◌≤◌, ◌≡◌, refl, Option, none, some, [], ◌∷◌, ◌++◌, arith,
  ltb, length, length-drop, drop, take-append, drop-append, Bool-cases, inl, inr,
}
use fips_shield.Std.Text.{Text}
use fips_shield.Std.Utf8.{Bytes}
use fips_shield.Njs.Runtime.{Runtime}
use fips_shield.Njs.Session.{concat, Cfg, State, violate, flush, max_pending_frames, max_fragments}
use fips_shield.Njs.Filters.{Violation}
use fips_shield.Njs.Inspect.{inspect}
use fips_shield.Njs.Frames.{
  flush_unless, settle, on_held, Head, frame_end, payload_of, hold, complete, on_data_frame,
  on_frame, is_control,
}

-- Other bytes at hand, and other values of `need` and of the count of reads.
abbrev pub tweak : Bytes → ℕ → ℕ → State → State
tweak a n m st = record st { acc = a; need = n; msg_reads = m }

pub violate-tweak :
    (rule detail : Text) (a : Bytes) (n m : ℕ) (st : State)
    → violate rule detail (tweak a n m st) ≡ tweak a n m (violate rule detail st)
unfolding violate
violate-tweak rule detail a n m st = elim (Bool-cases st.killed) [
  | inl e ↦ rw e refl
  | inr e ↦ rw e refl
]

pub payload_of-append :
    (h : Head) (b d : Bytes) → frame_end h ≤ length b → payload_of h (b ++ d) ≡ payload_of h b
payload_of-append h b d k =
    rw
      (
        drop-append h.off b d (omega arith),
        take-append 4 (drop h.off b) d (omega (arith, length-drop h.off b)),
        drop-append (h.off + 4) b d (omega arith),
        take-append h.len (drop (h.off + 4) b) d (omega (arith, length-drop (h.off + 4) b)),
      )
      refl

hold-tweak :
    (h : Head) (d : Bytes) (n m : ℕ) (st : State)
    → frame_end h ≤ length st.acc
    → hold h (tweak (st.acc ++ d) n m st) ≡ tweak (drop (frame_end h) st.acc ++ d) 2 m (hold h st)
unfolding hold
hold-tweak h d n m st k =
    rw (drop-append (frame_end h) st.acc d k, take-append (frame_end h) st.acc d k) refl

flush-tweak : (a : Bytes) (n m : ℕ) (st : State) → flush (tweak a n m st) ≡ tweak a n m (flush st)
unfolding flush
flush-tweak a n m st = refl

flush_unless-tweak :
    (held : Bool) (a : Bytes) (n m : ℕ) (st : State)
    → flush_unless held (tweak a n m st) ≡ tweak a n m (flush_unless held st)
unfolding flush_unless
flush_unless-tweak true a n m st = refl
flush_unless-tweak false a n m st = flush-tweak a n m st

settle-tweak :
    (ruling : Option Violation) (a : Bytes) (n m : ℕ) (st : State)
    → settle ruling (tweak a n m st) ≡ tweak a n m (settle ruling st)
unfolding settle
settle-tweak none a n m st = flush-tweak a n m st
settle-tweak (some v) a n m st = violate-tweak v.0 v.1 a n m st

module _ (R : Runtime) (cfg : Cfg) where
  complete-tweak :
      (a : Bytes) (n m : ℕ) (st : State)
      → complete R cfg (tweak a n m st) ≡ tweak a n 0 (complete R cfg st)
  unfolding complete
  complete-tweak a n m st = settle-tweak (inspect R cfg (concat st.msg_parts) st.account).0 a n 0 _

  on_data_frame-tweak :
      (h : Head) (payload a : Bytes) (n m : ℕ) (st : State)
      → (m' : ℕ) × (on_data_frame R cfg h payload (tweak a n m st)
          ≡ tweak a n m' (on_data_frame R cfg h payload st))
  unfolding on_data_frame
  on_data_frame-tweak h payload a n m st =
      elim (Bool-cases (ltb max_fragments (length (st.msg_parts ++ (payload ∷ []))))) [
        | inl e ↦ (m, rw e (violate-tweak _ _ a n m _))
        | inr e ↦ elim (Bool-cases h.fin) [
          | inl f ↦ (0, rw (e, f) (complete-tweak a n m _))
          | inr f ↦ (m, rw (e, f) refl)
        ]
      ]

  -- Once a frame is held.
  on_held-tweak :
      (h : Head) (payload a : Bytes) (n m : ℕ) (st : State)
      → (m' : ℕ) × (on_held R cfg h payload (tweak a n m st)
          ≡ tweak a n m' (on_held R cfg h payload st))
  unfolding on_held
  on_held-tweak h payload a n m st =
      elim (Bool-cases (ltb max_pending_frames (length st.pending))) [
        | inl e ↦ (m, rw e (violate-tweak _ _ a n m st))
        | inr e ↦ elim (Bool-cases (is_control h)) [
          | inl c ↦ (m, rw (e, c) (flush_unless-tweak st.in_msg a n m st))
          | inr c ↦ let (m', same) = on_data_frame-tweak h payload a n m st in (m', rw (e, c) same)
        ]
      ]

  -- What is at hand after a frame.
  pub on_frame-acc : (h : Head) (st : State) → (on_frame R cfg h st).acc ≡ drop (frame_end h) st.acc
  unfolding on_frame on_held on_data_frame complete settle flush_unless flush violate hold
  on_frame-acc h st = ground arith

  -- The bytes behind a frame, `need` and the count of reads make no difference to what it does.
  pub on_frame-tweak :
      (h : Head) (d : Bytes) (n m : ℕ) (st : State)
      → frame_end h ≤ length st.acc
      → (m' : ℕ) × (on_frame R cfg h (tweak (st.acc ++ d) n m st)
          ≡ tweak ((on_frame R cfg h st).acc ++ d) 2 m' (on_frame R cfg h st))
  unfolding on_frame
  on_frame-tweak h d n m st k =
      let (m', same) =
        on_held-tweak h (payload_of h st.acc) (drop (frame_end h) st.acc ++ d) 2 m (hold h st) in
      (
        m',
        ap (λ p. on_held R cfg h p (hold h (tweak (st.acc ++ d) n m st)))
              (payload_of-append h st.acc d k)
            ∙ ap (on_held R cfg h (payload_of h st.acc)) (hold-tweak h d n m st k)
            ∙ same
            ∙ ap (λ a. tweak (a ++ d) 2 m' (on_frame R cfg h st)) (sym (on_frame-acc h st)),
      )
