-- ===== src/Guard/System/Kept.antt =====
-- Commands that leave the ban of an address as it is: how such commands are put together.
use fips_shield.Guard.Cmd.{
  bail, now_epoch_s, now_mono_ns, pure, Error, World, Cmd, mono_at, continue, bans_map, or_fail,
  println, eprintln, write_bans, ◌>>=◌, ◌>>◌, cannot_open,
}
use fips_shield.Base.{
  ℕ, ◌≤◌, ◌≡◌, refl, Bool, true, false, Option, none, some, List, [], ◌∷◌, arith, Result, ok, err,
  if◌then◌else◌, sym, ◌∙◌, subst,
}
use fips_shield.Std.Text.{Text, codes}
use fips_shield.Guard.Kernel.{Addr6, Platform}
use fips_shield.Guard.Bans.{print_lines}
use fips_shield.Guard.Classifier.{Loaded, is_banned}

module _ (P : Platform) (a : Addr6) where
  -- A time that is not before a reading of the clock made so far.
  abbrev pub IsPast : World P → ℕ → Type 0
  IsPast w now = (i : ℕ) → i ≤ w.readings → mono_at P i ≤ now

  -- The classifier judges the ban of the address by the second map as by the first.
  abbrev pub SameVerdict : World P → Loaded P → P.Bans → Type 0
  SameVerdict w k bans =
      (now : ℕ)
      → IsPast w now
      → is_banned {P = P} a now (record k { bans = bans }) ≡ is_banned {P = P} a now k

  -- What leads from one world to the other keeps the ban of the address.
  pub record Kept (w w' : World P) : Type 0 where
    pub later : w.readings ≤ w'.readings
    pub same :
        (k : Loaded P)
        → w.pins.bans ≡ some k.bans
        → (bans : P.Bans) × (w'.pins.bans ≡ some bans) × SameVerdict w' k bans

  pub record Keeps {A : Type 0} (m : Cmd P A) : Type 0 where
    pub at : (w : World P) → Kept w (m w).1

  -- The same of a command that runs while this map of bans is pinned.
  pub record KeepsFor (bans : P.Bans) {A : Type 0} (m : Cmd P A) : Type 0 where
    pub at : (w : World P) → w.pins.bans ≡ some bans → Kept w (m w).1

  -- Nothing happens to the map of bans.
  pub quiet : (w w' : World P) → w'.pins.bans ≡ w.pins.bans → w.readings ≤ w'.readings → Kept w w'
  quiet w w' p r = record { later = r; same = λ k e. (k.bans, p ∙ e, λ now past. refl) }

  pub Kept-trans : (w w1 w' : World P) → Kept w w1 → Kept w1 w' → Kept w w'
  Kept-trans w w1 w' h h' = record {
    later = omega (arith, h.later, h'.later);
    same = λ k e.
        let (b1, e1, v1) = h.same k e in
        let (b, e', v) = h'.same (record k { bans = b1 }) e1 in
        (b, e', λ now past. v now past ∙ v1 now (λ i le. past i (omega (arith, h'.later))));
  }

  -- A result and what follows it.
  pub Kept-continue :
      {A B : Type 0} (w : World P) (r : Result Error A × World P) (f : A → Cmd P B)
      → Kept w r.1
      → ((x : A) (w1 : World P) → r ≡ (ok x, w1) → Kept w1 (f x w1).1)
      → Kept w (continue {P = P} r f).1
  Kept-continue w (ok x, w1) f h g = Kept-trans w w1 (f x w1).1 h (g x w1 refl)
  Kept-continue w (err e, w1) f h g = h

  pub Keeps-bind :
      {A B : Type 0} {m : Cmd P A} {f : A → Cmd P B}
      → Keeps m
      → ((x : A) → Keeps (f x))
      → Keeps (m >>= f)
  Keeps-bind {m = m} {f = f} h g = record {
    at = λ w. Kept-continue w (m w) f (h.at w) (λ x w1 q. (g x).at w1);
  }

  Keeps-then :
      {B : Type 0} {m : Cmd P (Unit {0})} {k : Cmd P B} → Keeps m → Keeps k → Keeps (m >> k)
  Keeps-then {m = m} {k = k} h g = record {
    at = λ w. Kept-continue w (m w) (λ _. k) (h.at w) (λ x w1 q. g.at w1);
  }

  -- A command that does nothing to the map of bans.
  pub quiet_cmd :
      {A : Type 0} {m : Cmd P A}
      → ((w : World P) → (m w).1.pins.bans ≡ w.pins.bans)
      → ((w : World P) → w.readings ≤ (m w).1.readings)
      → Keeps m
  quiet_cmd {m = m} p r = record { at = λ w. quiet w (m w).1 (p w) (r w) }

  pub Keeps-or_fail : {A : Type 0} (e : Error) (o : Option A) → Keeps (or_fail {P = P} e o)
  Keeps-or_fail e none = quiet_cmd (λ w. refl) (λ w. omega arith)
  Keeps-or_fail e (some x) = quiet_cmd (λ w. refl) (λ w. omega arith)

  pub Keeps-if :
      {A : Type 0} (b : Bool) {m n : Cmd P A} → Keeps m → Keeps n → Keeps (if b then m else n)
  Keeps-if true h k = h
  Keeps-if false h k = k

  -- The map of bans is opened, and what follows keeps the ban for that map.
  pub Keeps-bans_map :
      {B : Type 0} (f : P.Bans → Cmd P B)
      → ((bans : P.Bans) → KeepsFor bans (f bans))
      → Keeps (bans_map >>= f)
  unfolding bans_map
  Keeps-bans_map f h = record { at = λ w. go w w.pins.bans refl }
    where
      go :
          (w : World P) (o : Option P.Bans)
          → w.pins.bans ≡ o
          → Kept w (continue {P = P} (bans_map w) f).1
      go w none e =
          let q : bans_map w ≡ (err (cannot_open (codes "shield_bans")), w) = ground arith in
          subst (λ r. Kept w (continue {P = P} r f).1) (sym q) (quiet w w refl (omega arith))
      go w (some bans) e =
          let q : bans_map w ≡ (ok bans, w) = ground arith in
          subst (λ r. Kept w (continue {P = P} r f).1) (sym q) ((h bans).at w e)

  -- The map is written.
  pub Kept-write_bans :
      (w : World P) (bans m : P.Bans)
      → w.pins.bans ≡ some bans
      → ((k : Loaded P) → k.bans ≡ bans → SameVerdict w k m)
      → Kept w (write_bans {P = P} m w).1
  Kept-write_bans w bans m e h = record {
    later = omega arith;
    same = λ k e'. (m, refl, h k (ground (arith, e, e')));
  }

  pub Keeps-now_mono_ns : Keeps (now_mono_ns {P = P})
  unfolding now_mono_ns
  Keeps-now_mono_ns = quiet_cmd (λ w. refl) (λ w. omega arith)

  pub Keeps-now_epoch_s : Keeps (now_epoch_s {P = P})
  unfolding now_epoch_s
  Keeps-now_epoch_s = quiet_cmd (λ w. refl) (λ w. omega arith)

  pub Keeps-println : {line : Text} → Keeps (println {P = P} line)
  Keeps-println = quiet_cmd (λ w. refl) (λ w. omega arith)

  pub Keeps-eprintln : {line : Text} → Keeps (eprintln {P = P} line)
  Keeps-eprintln = quiet_cmd (λ w. refl) (λ w. omega arith)

  pub Keeps-pure : {A : Type 0} {x : A} → Keeps (pure {P = P} x)
  Keeps-pure = quiet_cmd (λ w. refl) (λ w. omega arith)

  pub Keeps-bail : {A : Type 0} {e : Error} → Keeps (bail {P = P} {A = A} e)
  Keeps-bail = quiet_cmd (λ w. refl) (λ w. omega arith)

  pub Keeps-print_lines : (lines : List Text) → Keeps (print_lines {P = P} lines)
  unfolding print_lines
  Keeps-print_lines [] = Keeps-pure
  Keeps-print_lines (line ∷ rest) = Keeps-then Keeps-println (Keeps-print_lines rest)

-- One command after another.
infixr 5 ◌then_keeps◌
pub ◌then_keeps◌ :
    {P : Platform} {a : Addr6} {B : Type 0} {m : Cmd P (Unit {0})} {k : Cmd P B}
    → Keeps P a m
    → Keeps P a k
    → Keeps P a (m >> k)
◌then_keeps◌ {P = P} {a = a} h k = Keeps-then P a h k
