-- ===== src/Njs/Frames/Steps.antt =====
-- What a step of `pump` can come to, and that it comes to the same when more bytes have arrived.
use fips_shield.Njs.Frames.{
  Head, Peek, wait, refused, head, peek, check_head, frame_end, on_frame, on_fit, on_check, on_peek,
  pump_step, stop, again,
}
use fips_shield.Base.{
  ◌+◌, ℕ, ◌≤◌, ◌<◌, ◌≡◌, refl, ap, ◌∙◌, true, false, Option, none, some, ◌++◌, arith, ltb, length,
  length-append, Bool-cases, inl, inr,
}
use fips_shield.Std.Text.{Text}
use fips_shield.Std.Utf8.{Bytes}
use fips_shield.Njs.Runtime.{Runtime}
use fips_shield.Njs.Session.{Cfg, State, violate}
use fips_shield.Njs.Filters.{Violation}
use fips_shield.Njs.Frames.Prefix.{
  peek-wait_le, peek-wait, peek-off, peek-head, peek-refused, peek-wait_append,
}
use fips_shield.Njs.Frames.Extend.{tweak}

module _ (R : Runtime) (cfg : Cfg) where
  pub data Outcome (st : State) : Type 0 where
    waits :
        (n : ℕ)
        → length st.acc < n
        → n ≤ 139 + cfg.max_msg
        → pump_step R cfg st ≡ stop (record st { need = n })
        → ((d : Bytes) (n' m' : ℕ)
            → length (st.acc ++ d) < n
            → pump_step R cfg (tweak (st.acc ++ d) n' m' st) ≡ stop (tweak (st.acc ++ d) n m' st))
        → Outcome st
    refuses :
        (rule detail : Text)
        → pump_step R cfg st ≡ stop (violate rule detail st)
        → ((d : Bytes) (n' m' : ℕ)
            → pump_step R cfg (tweak (st.acc ++ d) n' m' st)
              ≡ stop (violate rule detail (tweak (st.acc ++ d) n' m' st)))
        → Outcome st
    takes :
        (h : Head)
        → peek st.acc ≡ head h
        → 2 ≤ h.off
        → frame_end h ≤ length st.acc
        → check_head cfg h st ≡ none
        → pump_step R cfg st ≡ again (on_frame R cfg h st)
        → ((d : Bytes) (n' m' : ℕ)
            → pump_step R cfg (tweak (st.acc ++ d) n' m' st)
              ≡ again (on_frame R cfg h (tweak (st.acc ++ d) n' m' st)))
        → Outcome st

  on_fit-again :
      (h : Head) (st : State)
      → frame_end h ≤ length st.acc
      → on_fit R cfg h st ≡ again (on_frame R cfg h st)
  unfolding on_fit
  on_fit-again h st k =
      let e : ltb (length st.acc) (frame_end h) ≡ false = ground arith in rw e refl

  on_fit-stop :
      (h : Head) (st : State)
      → length st.acc < frame_end h
      → on_fit R cfg h st ≡ stop (record st { need = frame_end h })
  unfolding on_fit
  on_fit-stop h st k = let e : ltb (length st.acc) (frame_end h) ≡ true = ground arith in rw e refl

  -- The step, by what `peek` says.
  step_of : (p : Peek) (st : State) → peek st.acc ≡ p → pump_step R cfg st ≡ on_peek R cfg p st
  unfolding pump_step
  step_of p st e = ap (λ q. on_peek R cfg q st) e

  step_of_check :
      (h : Head) (v : Option Violation) (st : State)
      → peek st.acc ≡ head h
      → check_head cfg h st ≡ v
      → pump_step R cfg st ≡ on_check R cfg h v st
  unfolding on_peek
  step_of_check h v st e c = step_of (head h) st e ∙ ap (λ w. on_check R cfg h w st) c

  check_head-len : (h : Head) (st : State) → check_head cfg h st ≡ none → h.len ≤ 125 + cfg.max_msg
  unfolding check_head
  check_head-len h st e = ground arith

  on_fit-Outcome :
      (h : Head) (st : State) → peek st.acc ≡ head h → check_head cfg h st ≡ none → Outcome st
  unfolding on_check check_head
  on_fit-Outcome h st e c = elim (Bool-cases (ltb (length st.acc) (frame_end h))) [
    | inl few ↦
        waits (frame_end h) (ground arith)
          (omega (arith, peek-off st.acc h e, check_head-len h st c))
          (step_of_check h none st e c ∙ on_fit-stop h st (ground arith))
          (λ d n' m' k.
            step_of_check h none (tweak (st.acc ++ d) n' m' st) (peek-head st.acc d h e) c
            ∙ on_fit-stop h (tweak (st.acc ++ d) n' m' st) k)
    | inr enough ↦
        let fits : frame_end h ≤ length st.acc = ground arith in
        takes h e (peek-off st.acc h e).0 fits c
          (step_of_check h none st e c ∙ on_fit-again h st fits)
          (λ d n' m'.
            step_of_check h none (tweak (st.acc ++ d) n' m' st) (peek-head st.acc d h e) c
            ∙ on_fit-again h (tweak (st.acc ++ d) n' m' st) (omega (arith, length-append st.acc d)))
  ]

  on_check-Outcome :
      (h : Head) (v : Option Violation) (st : State)
      → peek st.acc ≡ head h
      → check_head cfg h st ≡ v
      → Outcome st
  unfolding on_check check_head
  on_check-Outcome h none st e c = on_fit-Outcome h st e c
  on_check-Outcome h (some v) st e c = refuses v.0 v.1 (step_of_check h (some v) st e c) (λ d n' m'.
      step_of_check h (some v) (tweak (st.acc ++ d) n' m' st) (peek-head st.acc d h e) c)

  on_peek-Outcome : (p : Peek) (st : State) → peek st.acc ≡ p → Outcome st
  unfolding on_peek
  on_peek-Outcome (wait n) st e =
      waits n (peek-wait st.acc n e) (omega (arith, peek-wait_le st.acc n e))
        (step_of (wait n) st e)
        (λ d n' m' k.
          step_of (wait n) (tweak (st.acc ++ d) n' m' st) (peek-wait_append st.acc d n e k))
  on_peek-Outcome (refused rule detail) st e =
      refuses rule detail (step_of (refused rule detail) st e) (λ d n' m'.
        step_of (refused rule detail) (tweak (st.acc ++ d) n' m' st)
          (peek-refused st.acc d rule detail e))
  on_peek-Outcome (head h) st e = on_check-Outcome h (check_head cfg h st) st e refl

  pub pump_step-Outcome : (st : State) → Outcome st
  pump_step-Outcome st = on_peek-Outcome (peek st.acc) st refl
