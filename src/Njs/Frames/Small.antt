-- ===== src/Njs/Frames/Small.antt =====
-- How many bytes wait for the rest of their frame.
use fips_shield.Base.{
  ℕ, zero, suc, ◌+◌, ◌≤◌, ◌<◌, ◌≡◌, sym, subst, ◌⊎◌, inl, inr, true, arith, length, Bool-cases,
}
use fips_shield.Std.Text.{Text}
use fips_shield.Njs.Runtime.{Runtime}
use fips_shield.Njs.Session.{Cfg, State, violate, flush, max_handshake}
use fips_shield.Njs.Frames.{
  Head, on_frame, on_held, on_data_frame, complete, settle, flush_unless, hold, pump,
}
use fips_shield.Njs.Frames.Steps.{waits, refuses, takes, pump_step-Outcome}
use fips_shield.Njs.Frames.Progress.{on_frame-shorter, violate-killed}
use fips_shield.Njs.Frames.Pump.{pump-killed, pump-stop, pump-again}

-- No segment is held apart, and a handshake is within its limit.
pub record IsMerged (st : State) : Type 0 where
  pub merged : st.pending_len ≡ 0
  pub shaken : length st.hs ≤ max_handshake

-- The session is over, or fewer bytes wait than `need` says, and `need` says no more than a frame
-- can have.
abbrev pub IsSmall : Cfg → State → Type 0
IsSmall cfg st =
    (st.killed ≡ true)
    ⊎ ((length st.acc + st.pending_len < st.need) × (st.need ≤ 139 + cfg.max_msg))

module _ (R : Runtime) (cfg : Cfg) where
  on_frame-IsMerged : (h : Head) (st : State) → IsMerged st → IsMerged (on_frame R cfg h st)
  unfolding on_frame on_held on_data_frame complete settle flush_unless flush violate hold
  on_frame-IsMerged h st v = ground arith

  violate-IsMerged :
      (rule detail : Text) (st : State) → IsMerged st → IsMerged (violate rule detail st)
  unfolding violate
  violate-IsMerged rule detail st v = ground arith

  pub pump-IsSmall :
      (n : ℕ) (st : State)
      → length st.acc < n
      → IsMerged st
      → IsMerged (pump R cfg st) × IsSmall cfg (pump R cfg st)
  pump-IsSmall zero st h v = absurd (omega arith)
  pump-IsSmall (suc n) st h v = elim (Bool-cases st.killed) [
    | inl k ↦ subst (λ s. IsMerged s × IsSmall cfg s) (sym (pump-killed R cfg st k)) (v, inl k)
    | inr k ↦ elim (pump_step-Outcome R cfg st) [
      | waits m few le e more ↦
          subst (λ s. IsMerged s × IsSmall cfg s)
            (sym (pump-stop R cfg st (record st { need = m }) k e))
            (record { merged = v.merged; shaken = v.shaken }, inr (omega (arith, v.merged), le))
      | refuses rule detail e more ↦
          subst (λ s. IsMerged s × IsSmall cfg s)
            (sym (pump-stop R cfg st (violate rule detail st) k e))
            (violate-IsMerged rule detail st v, inl (violate-killed rule detail st))
      | takes hd seen two fits c e more ↦
          let shorter = on_frame-shorter R cfg hd st two fits in
          subst (λ s. IsMerged s × IsSmall cfg s)
            (sym (pump-again R cfg st (on_frame R cfg hd st) k e (omega arith)))
            (pump-IsSmall n (on_frame R cfg hd st) (omega arith) (on_frame-IsMerged hd st v))
    ]
  ]
