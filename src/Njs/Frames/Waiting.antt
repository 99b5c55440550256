-- ===== src/Njs/Frames/Waiting.antt =====
-- When `pump` has stopped for want of bytes, `need` says how many it takes to go on.
use fips_shield.Base.{
  ℕ, zero, suc, ◌≤◌, ◌<◌, ◌≡◌, refl, sym, ◌∙◌, subst, true, [], ◌++◌, arith, length, Bool-cases,
  inl, inr, ◌⊎◌,
}
use fips_shield.Std.Text.{Text}
use fips_shield.Std.Utf8.{Bytes}
use fips_shield.Njs.Runtime.{Runtime}
use fips_shield.Njs.Session.{Cfg, State, violate, flush}
use fips_shield.Njs.Frames.{
  Head, on_frame, on_held, on_data_frame, complete, settle, flush_unless, hold, pump_step, pump,
  stop,
}
use fips_shield.Njs.Frames.Extend.{tweak}
use fips_shield.Njs.Frames.Steps.{waits, refuses, takes, pump_step-Outcome}
use fips_shield.Njs.Frames.Progress.{on_frame-shorter, violate-killed}
use fips_shield.Njs.Frames.Pump.{pump-killed, pump-stop, pump-again}

-- What the loop keeps of a state `s`: the mode, and that no segment is held apart.
pub record Keeps (s r : State) : Type 0 where
  pub mode_eq : r.mode ≡ s.mode
  pub reads_le : r.msg_reads ≤ s.msg_reads
  pub chunks_eq : r.chunks ≡ []
  pub pending_eq : r.pending_len ≡ 0

module _ (R : Runtime) (cfg : Cfg) where
  -- Fewer bytes than `need` let a step do nothing but wait.
  pub record Waits (r : State) : Type 0 where
    pub few : length r.acc < r.need
    pub idle :
        (d : Bytes) (n m : ℕ)
        → length (r.acc ++ d) < r.need
        → pump_step R cfg (tweak (r.acc ++ d) n m r) ≡ stop (tweak (r.acc ++ d) r.need m r)

  abbrev pub Rested : State → State → Type 0
  Rested s r = Keeps s r × ((r.killed ≡ true) ⊎ Waits r)

  on_frame-Keeps :
      (h : Head) (st : State) → st.chunks ≡ [] → st.pending_len ≡ 0 → Keeps st (on_frame R cfg h st)
  unfolding on_frame on_held on_data_frame complete settle flush_unless flush violate hold
  on_frame-Keeps h st c p = ground arith

  violate-Keeps :
      (rule detail : Text) (st : State)
      → st.chunks ≡ []
      → st.pending_len ≡ 0
      → Keeps st (violate rule detail st)
  unfolding violate
  violate-Keeps rule detail st c p = ground arith

  Keeps-trans : (s t r : State) → Keeps s t → Keeps t r → Keeps s r
  Keeps-trans s t r v w = record {
    mode_eq = w.mode_eq ∙ v.mode_eq;
    reads_le = omega (arith, v.reads_le, w.reads_le);
    chunks_eq = w.chunks_eq;
    pending_eq = w.pending_eq;
  }

  pub pump-Rested :
      (k : ℕ) (st : State)
      → length st.acc < k
      → st.chunks ≡ []
      → st.pending_len ≡ 0
      → Rested st (pump R cfg st)
  pump-Rested zero st h c p = absurd (omega arith)
  pump-Rested (suc k) st h c p = elim (Bool-cases st.killed) [
    | inl d ↦
        subst (Rested st) (sym (pump-killed R cfg st d))
          (record { mode_eq = refl; reads_le = omega arith; chunks_eq = c; pending_eq = p }, inl d)
    | inr d ↦ elim (pump_step-Outcome R cfg st) [
      | waits n few le e more ↦ subst (Rested st) (sym (pump-stop R cfg st _ d e)) (
        record { mode_eq = refl; reads_le = omega arith; chunks_eq = c; pending_eq = p },
        inr (record { few = few; idle = more }),
      )
      | refuses rule detail e more ↦
          subst (Rested st) (sym (pump-stop R cfg st _ d e))
            (violate-Keeps rule detail st c p, inl (violate-killed rule detail st))
      | takes hd seen two fits x e more ↦
          let f = on_frame R cfg hd st in
          let shorter = on_frame-shorter R cfg hd st two fits in
          let v = on_frame-Keeps hd st c p in
          let (w, rest) = pump-Rested k f (omega arith) v.chunks_eq v.pending_eq in
          subst (Rested st) (sym (pump-again R cfg st f d e (omega arith)))
            (Keeps-trans st f (pump R cfg f) v w, rest)
    ]
  ]
