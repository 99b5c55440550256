-- ===== src/Guard/Bans/Listing.antt =====
-- What `cmd_list` prints.
use fips_shield.Base.{
  subst, ◌+◌, ℕ, ◌≡◌, ◌≢◌, inl, inr, refl, true, ◌||◌, Option, none, some, List, [], ◌∷◌, ◌++◌,
  arith, ltb, ◌==◌, ok, err, In, All, map, Bool-cases, Option-cases, ◌∙◌, ap, append_assoc,
  append-nil, sym, ◌↔◌, Result,
}
use fips_shield.Guard.Cmd.{Error, World, mono_at}
use fips_shield.Guard.Kernel.{Addr6, BanVal, Platform, BansLaws}
use fips_shield.Guard.Bans.{
  active_entries, expired_keys, prune_expired, print_lines, ban_line, cmd_list, Text,
}
use fips_shield.Guard.Bans.Prune.{prune_inv, get-prune, unexpired}

-- A ban that is in force.
abbrev pub IsLive : ℕ → BanVal → Type 0
IsLive now v = (v.expires_mono_ns == 0 || ltb now v.expires_mono_ns) ≡ true

active_readable :
    (now : ℕ) (entries : List (Option (Addr6 × BanVal))) (active : List (Addr6 × ℕ))
    → active_entries now entries ≡ some active
    → All (λ e. e ≢ none) entries
unfolding active_entries
active_readable now [] active h = tt
active_readable now (none ∷ entries) active h = cc
active_readable now (some (k, v) ∷ entries) active h =
    elim (Option-cases (active_entries now entries)) [
      | inl e ↦ absurd (ground arith)
      | inr (ks, e) ↦ ((λ q. cc), active_readable now entries ks e)
    ]

-- An entry of the list stands for a live entry of the map.
active_sound :
    (now : ℕ) (entries : List (Option (Addr6 × BanVal))) (active : List (Addr6 × ℕ)) (j : Addr6)
    (until : ℕ)
    → active_entries now entries ≡ some active
    → In (j, until) active
    → (v : BanVal) × In (some (j, v)) entries × IsLive now v × (until ≡ v.expires_epoch_s)
unfolding active_entries
active_sound now [] active j until h m = absurd (ground arith)
active_sound now (none ∷ entries) active j until h m = absurd (ground arith)
active_sound now (some (k, v) ∷ entries) active j until h m =
    elim (Option-cases (active_entries now entries)) [
      | inl e ↦ absurd (ground arith)
      | inr (ks, e) ↦ elim (Bool-cases (v.expires_mono_ns == 0 || ltb now v.expires_mono_ns)) [
        | inl l ↦
            let q : active ≡ (k, v.expires_epoch_s) ∷ ks = ground arith in
            elim (subst (λ a. In (j, until) a) q m) [
              | inl p ↦ (
                v,
                inl (ap (λ a. some (a, v)) (ap (λ (x : Addr6 × ℕ). x.0) p)),
                l,
                ap (λ (x : Addr6 × ℕ). x.1) p,
              )
              | inr i ↦
                  let (u, i', l', r) = active_sound now entries ks j until e i in (u, inr i', l', r)
            ]
        | inr l ↦
            let q : active ≡ ks = ground arith in
            let (u, i', l', r) =
              active_sound now entries ks j until e (subst (λ a. In (j, until) a) q m) in
            (u, inr i', l', r)
      ]
    ]

active_complete :
    (now : ℕ) (entries : List (Option (Addr6 × BanVal))) (active : List (Addr6 × ℕ)) (j : Addr6)
    (v : BanVal)
    → active_entries now entries ≡ some active
    → In (some (j, v)) entries
    → IsLive now v
    → In (j, v.expires_epoch_s) active
unfolding active_entries
active_complete now [] active j v h m l = absurd m
active_complete now (none ∷ entries) active j v h m l = absurd (ground arith)
active_complete now (some (k, u) ∷ entries) active j v h m l =
    elim (Option-cases (active_entries now entries)) [
      | inl e ↦ absurd (ground arith)
      | inr (ks, e) ↦ elim (Bool-cases (u.expires_mono_ns == 0 || ltb now u.expires_mono_ns)) [
        | inl n ↦
            let q : active ≡ (k, u.expires_epoch_s) ∷ ks = ground arith in
            subst (λ a. In (j, v.expires_epoch_s) a) (sym q)
              (elim m [
                | inl p ↦ inl (ground arith)
                | inr i ↦ inr (active_complete now entries ks j v e i l)
              ])
        | inr n ↦
            let q : active ≡ ks = ground arith in
            subst (λ a. In (j, v.expires_epoch_s) a) (sym q)
              (elim m [
                | inl p ↦ absurd (ground arith)
                | inr i ↦ active_complete now entries ks j v e i l
              ])
      ]
    ]

module _ {P : Platform} where
  pub print_lines_lem :
      (l : List Text) (w : World P)
      → print_lines {P = P} l w ≡ (ok tt, record w { stdout = w.stdout ++ l })
  unfolding print_lines
  print_lines_lem [] w = rw (append-nil w.stdout) refl
  print_lines_lem (t ∷ l) w =
      print_lines_lem l (record w { stdout = w.stdout ++ (t ∷ []) })
      ∙ rw (append_assoc w.stdout (t ∷ []) l) refl

module _ (P : Platform) (w : World P) where
  -- A ban with this expiry time that has no end, or one after the sweep's reading of the clock and
  -- after the one that follows it.
  abbrev pub IsListed : P.Bans → Addr6 → ℕ → Type 0
  IsListed bans j until =
      (v : BanVal) × (unexpired (mono_at P w.readings) (P.ban_get bans j) ≡ some v)
      × IsLive (mono_at P (w.readings + 1)) v
      × (until ≡ v.expires_epoch_s)

  abbrev pub Prints : P.Bans → World P → Type 0
  Prints bans w' =
      (active : List (Addr6 × ℕ)) × (w'.stdout ≡ w.stdout ++ map ban_line active)
      × ((j : Addr6) (until : ℕ) → In (j, until) active ↔ IsListed bans j until)

module _ (P : Platform) (L : BansLaws P) where
  listed_lem :
      (w : World P) (bans m : P.Bans) (n : ℕ) (w1 : World P) (active : List (Addr6 × ℕ))
      → prune_expired {P = P} bans w ≡ (ok (n, m), w1)
      → active_entries (mono_at P (w.readings + 1)) (P.ban_iter m) ≡ some active
      → (j : Addr6) (until : ℕ) → In (j, until) active ↔ IsListed P w bans j until
  listed_lem w bans m n w1 active h e j until =
      let now = mono_at P (w.readings + 1) in
      let g : P.ban_get m j ≡ unexpired (mono_at P w.readings) (P.ban_get bans j) =
        get-prune P L bans m n w w1 j h in
      (
        (λ i.
            let (v, i', l, u) = active_sound now (P.ban_iter m) active j until e i in
            (v, sym g ∙ L.get_of_iter m j v i', l, u)),
        (λ p.
            let (v, q, l, u) = p in
            subst (λ t. In (j, t) active) (sym u)
              (active_complete now (P.ban_iter m) active j v e
                (L.iter_of_get m j v (active_readable now (P.ban_iter m) active e) (g ∙ q)) l)),
      )

  stdout_of_prune :
      (bans m : P.Bans) (n : ℕ) (w w1 : World P)
      → prune_expired {P = P} bans w ≡ (ok (n, m), w1)
      → w1.stdout ≡ w.stdout
  unfolding prune_expired
  stdout_of_prune bans m n w w1 h =
      elim (Option-cases (expired_keys (mono_at P w.readings) (P.ban_iter bans))) [
        | inl e ↦ absurd (ground arith)
        | inr (keys, e) ↦ ground arith
      ]

  -- With the map of bans pinned, a listing that succeeds prints the lines of a list of entries,
  -- which holds an address with an expiry time exactly if the map has a ban of the address with
  -- this time, and the ban is permanent or ends after the sweep's reading of the clock and after
  -- the one that follows it.
  pub cmd_list-ban_line :
      (w w' : World P) (bans : P.Bans)
      → w.pins.bans ≡ some bans
      → cmd_list {P = P} w ≡ (ok tt, w')
      → Prints P w bans w'
  unfolding cmd_list
  cmd_list-ban_line w w' bans b h = swept (prune_expired {P = P} bans w) refl
    where
      swept :
          (r : Result Error (ℕ × P.Bans) × World P)
          → prune_expired {P = P} bans w ≡ r
          → Prints P w bans w'
      swept (err f, w1) e = absurd (ground arith)
      swept (ok (n, m), w1) e =
          elim (Option-cases (active_entries (mono_at P w1.readings) (P.ban_iter m))) [
            | inl a ↦ absurd (ground arith)
            | inr (active, a) ↦
                let (_, _, _, _, _, r) = prune_inv P bans m n w w1 e in
                (
                  active,
                  ground (
                    arith,
                    print_lines_lem (map ban_line active)
                        (record w1 { readings = w1.readings + 1 }),
                    stdout_of_prune bans m n w w1 e,
                  ),
                  listed_lem w bans m n w1 active e (rw (← r) a),
                )
          ]
