-- ===== src/Njs/Frames/Pump.antt =====
-- `pump` as a function of its own steps.
use fips_shield.Base.{
  subst, ℕ, zero, suc, ◌<◌, ◌≡◌, refl, sym, ap, ◌∙◌, true, false, some, arith, length, unwrap_or,
  Bool-cases, inl, inr,
}
use fips_shield.Njs.Runtime.{Runtime}
use fips_shield.Njs.Session.{Cfg, State}
use fips_shield.Njs.Frames.{on_frame, pump_step, pump_loop, pump, stop, again}
use fips_shield.Njs.Frames.Steps.{waits, refuses, takes, pump_step-Outcome}
use fips_shield.Njs.Frames.Progress.{
  Rests, loop-killed, loop-stop, loop-again, on_frame-shorter, pump_loop_ends,
}

module _ (R : Runtime) (cfg : Cfg) where
  pump_of_loop :
      (fuel : ℕ) (st r : State)
      → pump_loop R fuel cfg st ≡ some r
      → pump_loop R fuel cfg st ≡ pump_loop R (suc (length st.acc)) cfg st
      → r ≡ pump R cfg st
  unfolding pump
  pump_of_loop fuel st r e same = ap (unwrap_or st) (sym e ∙ same)

  -- Fuel beyond the number of bytes changes nothing.
  loop_agrees :
      (f g : ℕ) (st : State)
      → length st.acc < f
      → length st.acc < g
      → pump_loop R f cfg st ≡ pump_loop R g cfg st
  loop_agrees zero g st h k = absurd (omega arith)
  loop_agrees (suc f) zero st h k = absurd (omega arith)
  loop_agrees (suc f) (suc g) st h k = elim (Bool-cases st.killed) [
    | inl d ↦ loop-killed R cfg f st d ∙ sym (loop-killed R cfg g st d)
    | inr d ↦ elim (pump_step-Outcome R cfg st) [
      | waits n few le e more ↦ loop-stop R cfg f st _ d e ∙ sym (loop-stop R cfg g st _ d e)
      | refuses rule detail e more ↦ loop-stop R cfg f st _ d e ∙ sym (loop-stop R cfg g st _ d e)
      | takes hd seen two fits c e more ↦
          let shorter = on_frame-shorter R cfg hd st two fits in
          loop-again R cfg f st _ d e
          ∙ loop_agrees f g (on_frame R cfg hd st) (omega arith) (omega arith)
          ∙ sym (loop-again R cfg g st _ d e)
    ]
  ]

  -- The loop of `pump` ends whatever has arrived, with fuel for each byte at hand or more, and what
  -- it ends with does not depend on the fuel. After it the session is over, or fewer bytes are at
  -- hand than `need` says.
  pub pump_ends :
      (fuel : ℕ) (st : State)
      → length st.acc < fuel
      → (pump_loop R fuel cfg st ≡ some (pump R cfg st)) × Rests (pump R cfg st)
  pump_ends fuel st h =
      let (r, e, rests) = pump_loop_ends R cfg fuel st h in
      let same : r ≡ pump R cfg st =
        pump_of_loop fuel st r e (loop_agrees fuel (suc (length st.acc)) st h (omega arith)) in
      (e ∙ ap some same, subst Rests same rests)

  pub pump-killed : (st : State) → st.killed ≡ true → pump R cfg st ≡ st
  pump-killed st k = sym (pump_of_loop (suc (length st.acc)) st st (loop-killed R cfg _ st k) refl)

  pub pump-stop :
      (st r : State) → st.killed ≡ false → pump_step R cfg st ≡ stop r → pump R cfg st ≡ r
  pump-stop st r k e =
      sym (pump_of_loop (suc (length st.acc)) st r (loop-stop R cfg _ st r k e) refl)

  pub pump-again :
      (st r : State)
      → st.killed ≡ false
      → pump_step R cfg st ≡ again r
      → length r.acc < length st.acc
      → pump R cfg st ≡ pump R cfg r
  pump-again st r k e h = sym (
      pump_of_loop (suc (length st.acc)) st (pump R cfg r)
        (loop-again R cfg _ st r k e ∙ (pump_ends (length st.acc) r h).0) refl)
