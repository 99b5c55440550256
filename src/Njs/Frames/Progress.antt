-- ===== src/Njs/Frames/Progress.antt =====
-- The loop of `pump` ends, whatever has arrived.
use fips_shield.Base.{
  ℕ, zero, suc, ◌+◌, ◌≤◌, ◌<◌, ◌≡◌, ◌∙◌, true, false, some, arith, length, length-drop, Bool-cases,
  inl, inr, ◌⊎◌,
}
use fips_shield.Std.Text.{Text}
use fips_shield.Njs.Runtime.{Runtime}
use fips_shield.Njs.Session.{Cfg, State, violate}
use fips_shield.Njs.Frames.{Head, frame_end, on_frame, pump_step, pump_loop, stop, again}
use fips_shield.Njs.Frames.Steps.{waits, refuses, takes, pump_step-Outcome}
use fips_shield.Njs.Frames.Extend.{on_frame-acc}

pub violate-killed : (rule detail : Text) (st : State) → (violate rule detail st).killed ≡ true
unfolding violate
violate-killed rule detail st = ground arith

-- The session is over, or fewer bytes are at hand than `need` says.
abbrev pub Rests : State → Type 0
Rests st = (st.killed ≡ true) ⊎ (length st.acc < st.need)

module _ (R : Runtime) (cfg : Cfg) where
  pub loop-killed :
      (fuel : ℕ) (st : State) → st.killed ≡ true → pump_loop R (suc fuel) cfg st ≡ some st
  unfolding pump_loop
  loop-killed fuel st k = rw k

  pub loop-stop :
      (fuel : ℕ) (st r : State)
      → st.killed ≡ false
      → pump_step R cfg st ≡ stop r
      → pump_loop R (suc fuel) cfg st ≡ some r
  unfolding pump_loop
  loop-stop fuel st r k e = ground arith

  pub loop-again :
      (fuel : ℕ) (st r : State)
      → st.killed ≡ false
      → pump_step R cfg st ≡ again r
      → pump_loop R (suc fuel) cfg st ≡ pump_loop R fuel cfg r
  unfolding pump_loop
  loop-again fuel st r k e = ground arith

  -- A frame that is taken is at least six bytes long.
  pub on_frame-shorter :
      (h : Head) (st : State)
      → 2 ≤ h.off
      → frame_end h ≤ length st.acc
      → length (on_frame R cfg h st).acc + 6 ≤ length st.acc
  on_frame-shorter h st k fits =
      rw (on_frame-acc R cfg h st) (omega (arith, length-drop (frame_end h) st.acc))

  -- With fuel for each byte at hand the loop ends, and then the session rests.
  pub pump_loop_ends :
      (fuel : ℕ) (st : State)
      → length st.acc < fuel
      → (r : State) × (pump_loop R fuel cfg st ≡ some r) × Rests r
  pump_loop_ends zero st h = absurd (omega arith)
  pump_loop_ends (suc fuel) st h = elim (Bool-cases st.killed) [
    | inl k ↦ (st, loop-killed fuel st k, inl k)
    | inr k ↦ elim (pump_step-Outcome R cfg st) [
      | waits n few le e more ↦ (record st { need = n }, loop-stop fuel st _ k e, inr few)
      | refuses rule detail e more ↦
          (violate rule detail st, loop-stop fuel st _ k e, inl (violate-killed rule detail st))
      | takes hd seen two fits c e more ↦
          let (r, done, rests) =
            pump_loop_ends fuel (on_frame R cfg hd st)
              (omega (arith, on_frame-shorter hd st two fits)) in
          (r, loop-again fuel st _ k e ∙ done, rests)
    ]
  ]
