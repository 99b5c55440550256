-- ===== src/Njs/Frames/Restart.antt =====
-- `pump` can stop at any point and go on when more bytes have arrived.
use fips_shield.Base.{
  ℕ, zero, suc, ◌≤◌, ◌<◌, ◌≡◌, sym, ap, ◌∙◌, subst, true, false, List, [], ◌++◌, arith, length,
  length-append, append-nil, Bool-cases, inl, inr,
}
use fips_shield.Std.Text.{Text}
use fips_shield.Std.Utf8.{Bytes}
use fips_shield.Njs.Runtime.{Runtime}
use fips_shield.Njs.Session.{Cfg, State, Out, violate}
use fips_shield.Njs.Frames.{Head, frame_end, on_frame, pump_step, pump, stop, again}
use fips_shield.Njs.Frames.Extend.{tweak, violate-tweak, on_frame-tweak}
use fips_shield.Njs.Frames.Steps.{waits, refuses, takes, pump_step-Outcome}
use fips_shield.Njs.Frames.Progress.{on_frame-shorter, violate-killed}
use fips_shield.Njs.Frames.Pump.{pump-killed, pump-stop, pump-again}

module _ (R : Runtime) (cfg : Cfg) where
  abbrev pub out_of : State → List Out
  out_of st = (pump R cfg st).out

  pump_takes :
      (h : Head) (d : Bytes) (n m : ℕ) (st : State)
      → st.killed ≡ false
      → 2 ≤ h.off
      → frame_end h ≤ length st.acc
      → pump_step R cfg (tweak (st.acc ++ d) n m st)
        ≡ again (on_frame R cfg h (tweak (st.acc ++ d) n m st))
      → (m' : ℕ) × (pump R cfg (tweak (st.acc ++ d) n m st)
          ≡ pump R cfg (tweak ((on_frame R cfg h st).acc ++ d) 2 m' (on_frame R cfg h st)))
  pump_takes h d n m st k two fits e =
      let t = tweak (st.acc ++ d) n m st in
      let shorter = on_frame-shorter R cfg h t two (omega (arith, length-append st.acc d)) in
      let (m', same) = on_frame-tweak R cfg h d n m st fits in
      (m', pump-again R cfg t (on_frame R cfg h t) k e (omega arith) ∙ ap (pump R cfg) same)

  pump_refuses :
      (rule detail : Text) (a : Bytes) (n m : ℕ) (st : State)
      → st.killed ≡ false
      → pump_step R cfg (tweak a n m st) ≡ stop (violate rule detail (tweak a n m st))
      → out_of (tweak a n m st) ≡ (violate rule detail st).out
  pump_refuses rule detail a n m st k e =
      ap (λ (s : State). s.out)
        (pump-stop R cfg (tweak a n m st) _ k e ∙ violate-tweak rule detail a n m st)

  pump_killed :
      (a : Bytes) (n m : ℕ) (st : State) → st.killed ≡ true → out_of (tweak a n m st) ≡ st.out
  pump_killed a n m st k = ap (λ (s : State). s.out) (pump-killed R cfg (tweak a n m st) k)

  -- With no bytes behind those at hand.
  behind : (n m : ℕ) (st : State) → tweak (st.acc ++ []) n m st ≡ tweak st.acc n m st
  behind n m st = ap (λ a. tweak a n m st) (append-nil st.acc)

  -- `need` and the count of reads make no difference to what is sent.
  pub pump-tweak :
      (k : ℕ) (st : State) (n m : ℕ) → length st.acc < k → out_of (tweak st.acc n m st) ≡ out_of st
  pump-tweak zero st n m h = absurd (omega arith)
  pump-tweak (suc k) st n m h = ap out_of (sym (behind n m st)) ∙ elim (Bool-cases st.killed) [
    | inl d ↦
        pump_killed (st.acc ++ []) n m st d
        ∙ ap (λ (s : State). s.out) (sym (pump-killed R cfg st d))
    | inr d ↦ elim (pump_step-Outcome R cfg st) [
      | waits c few le e more ↦
          ap (λ (s : State). s.out)
            (pump-stop R cfg (tweak (st.acc ++ []) n m st) _ d
              (more [] n m (omega (arith, length-append st.acc []))))
          ∙ ap (λ (s : State). s.out) (sym (pump-stop R cfg st _ d e))
      | refuses rule detail e more ↦
          pump_refuses rule detail (st.acc ++ []) n m st d (more [] n m)
          ∙ ap (λ (s : State). s.out) (sym (pump-stop R cfg st _ d e))
      | takes hd seen two fits c e more ↦
          let f = on_frame R cfg hd st in
          let shorter = on_frame-shorter R cfg hd st two fits in
          let (m', same) = pump_takes hd [] n m st d two fits (more [] n m) in
          ap (λ (s : State). s.out) same
          ∙ ap out_of (behind 2 m' f)
          ∙ pump-tweak k f 2 m' (omega arith)
          ∙ ap (λ (s : State). s.out) (sym (pump-again R cfg st f d e (omega arith)))
    ]
  ]

  -- Whether `pump` runs before more bytes arrive makes no difference to what is sent in all.
  pub pump-restart :
      (k : ℕ) (st : State) (d : Bytes) (n m n' m' : ℕ)
      → length st.acc < k
      → out_of (tweak (st.acc ++ d) n m st)
        ≡ out_of (tweak ((pump R cfg st).acc ++ d) n' m' (pump R cfg st))
  pump-restart zero st d n m n' m' h = absurd (omega arith)
  pump-restart (suc k) st d n m n' m' h = elim (Bool-cases st.killed) [
    | inl c ↦
        subst (λ r. out_of (tweak (st.acc ++ d) n m st) ≡ out_of (tweak (r.acc ++ d) n' m' r))
          (sym (pump-killed R cfg st c))
          (pump_killed (st.acc ++ d) n m st c ∙ sym (pump_killed (st.acc ++ d) n' m' st c))
    | inr c ↦ elim (pump_step-Outcome R cfg st) [
      | waits w few le e more ↦
          subst (λ r. out_of (tweak (st.acc ++ d) n m st) ≡ out_of (tweak (r.acc ++ d) n' m' r))
            (sym (pump-stop R cfg st _ c e))
            (sym (
              pump-tweak (suc (length (st.acc ++ d))) (tweak (st.acc ++ d) n m st) n' m'
                (omega arith)))
      | refuses rule detail e more ↦
          subst (λ r. out_of (tweak (st.acc ++ d) n m st) ≡ out_of (tweak (r.acc ++ d) n' m' r))
            (sym (pump-stop R cfg st _ c e))
            (pump_refuses rule detail (st.acc ++ d) n m st c (more d n m)
              ∙ sym (pump_killed _ n' m' (violate rule detail st) (violate-killed rule detail st)))
      | takes hd seen two fits x e more ↦
          let f = on_frame R cfg hd st in
          let shorter = on_frame-shorter R cfg hd st two fits in
          let (m1, same) = pump_takes hd d n m st c two fits (more d n m) in
          subst (λ r. out_of (tweak (st.acc ++ d) n m st) ≡ out_of (tweak (r.acc ++ d) n' m' r))
            (sym (pump-again R cfg st f c e (omega arith)))
            (ap (λ (s : State). s.out) same ∙ pump-restart k f d 2 m1 n' m' (omega arith))
    ]
  ]
