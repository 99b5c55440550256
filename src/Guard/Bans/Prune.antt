-- ===== src/Guard/Bans/Prune.antt =====
-- What a sweep of lapsed entries does to the ban map (`prune_expired`).
use fips_shield.Base.{
  ◌||◌, ◌==◌, ltb, ◌+◌, ℕ, ◌≡◌, ◌≢◌, inl, inr, refl, Bool, true, Option, none, some, List, [], ◌∷◌,
  arith, if◌then◌else◌, ok, length, unwrap_or, In, All, some_of, Bool-cases, Option-cases, ◌∙◌, ap,
}
use fips_shield.Std.Text.{text_eq_refl, text_eq→eq}
use fips_shield.Guard.Kernel.{Addr6, BanVal, Platform, BansLaws, addr_eq}
use fips_shield.Guard.Cmd.{World, mono_at}
use fips_shield.Guard.Bans.{is_expired, expired_keys, remove_keys, prune_expired}

-- A ban stays while it has no end, which 0 stands for, or its end is ahead.
abbrev pub unexpired : ℕ → Option BanVal → Option BanVal
unexpired now none = none
unexpired now (some v) =
    if v.expires_mono_ns == 0 || ltb now v.expires_mono_ns then some v else none

is_expired_lem :
    (now : ℕ) (v : BanVal) → (if is_expired now v then none else some v) ≡ unexpired now (some v)
unfolding is_expired
is_expired_lem now v = ground arith

abbrev pub has_key : Addr6 → List Addr6 → Bool
has_key j keys = some_of (addr_eq j) keys

-- Entries are listed exactly if they can be read, all of them.
pub readable :
    (now : ℕ) (entries : List (Option (Addr6 × BanVal))) (keys : List Addr6)
    → expired_keys now entries ≡ some keys
    → All (λ e. e ≢ none) entries
unfolding expired_keys
readable now [] keys h = tt
readable now (none ∷ entries) keys h = cc
readable now (some (k, v) ∷ entries) keys h = elim (Option-cases (expired_keys now entries)) [
  | inl e ↦ absurd (ground arith)
  | inr (ks, e) ↦ ((λ q. cc), readable now entries ks e)
]

-- A key that is listed belongs to a lapsed entry.
pub listed_sound :
    (now : ℕ) (entries : List (Option (Addr6 × BanVal))) (keys : List Addr6) (j : Addr6)
    → expired_keys now entries ≡ some keys
    → has_key j keys ≡ true
    → (v : BanVal) × In (some (j, v)) entries × (is_expired now v ≡ true)
unfolding expired_keys
listed_sound now [] keys j h m = absurd (ground arith)
listed_sound now (none ∷ entries) keys j h m = absurd (ground arith)
listed_sound now (some (k, v) ∷ entries) keys j h m =
    elim (Option-cases (expired_keys now entries)) [
      | inl e ↦ absurd (ground arith)
      | inr (ks, e) ↦ elim (Bool-cases (has_key j ks)) [
        | inl t ↦ let (u, i, x) = listed_sound now entries ks j e t in (u, inr i, x)
        | inr f ↦ (v, inl (ap (λ a. some (a, v)) (text_eq→eq j k (ground arith))), ground arith)
      ]
    ]

-- The key of a lapsed entry is listed.
pub listed_complete :
    (now : ℕ) (entries : List (Option (Addr6 × BanVal))) (keys : List Addr6) (j : Addr6)
    (v : BanVal)
    → expired_keys now entries ≡ some keys
    → In (some (j, v)) entries
    → is_expired now v ≡ true
    → has_key j keys ≡ true
unfolding expired_keys
listed_complete now [] keys j v h m e = absurd m
listed_complete now (none ∷ entries) keys j v h m e = absurd (ground arith)
listed_complete now (some (k, u) ∷ entries) keys j v h (inl q) e = ground (arith, text_eq_refl k)
listed_complete now (some (k, u) ∷ entries) keys j v h (inr m) e =
    elim (Option-cases (expired_keys now entries)) [
      | inl f ↦ absurd (ground arith)
      | inr (ks, f) ↦ ground (arith, listed_complete now entries ks j v f m e)
    ]

module _ (P : Platform) where
  -- What a sweep that succeeds returns and leaves.
  pub prune_inv :
      (bans m : P.Bans) (n : ℕ) (w w' : World P)
      → prune_expired {P = P} bans w ≡ (ok (n, m), w')
      → (keys : List Addr6) × (expired_keys (mono_at P w.readings) (P.ban_iter bans) ≡ some keys)
        × (n ≡ length keys)
        × (m ≡ remove_keys P keys bans)
        × (w'.pins ≡ record w.pins { bans = some m })
        × (w'.readings ≡ w.readings + 1)
  unfolding prune_expired
  prune_inv bans m n w w' h =
      elim (Option-cases (expired_keys (mono_at P w.readings) (P.ban_iter bans))) [
        | inl e ↦ absurd (ground arith)
        | inr (keys, e) ↦ (keys, e, ground arith, ground arith, ground arith, ground arith)
      ]

module _ (P : Platform) (L : BansLaws P) where
  pub get_absent :
      (m : P.Bans) (k j : Addr6)
      → P.ban_get m k ≡ none
      → P.ban_get m j ≡ (if addr_eq j k then none else P.ban_get m j)
  get_absent m k j e = elim (Bool-cases (addr_eq j k)) [
    | inl t ↦ rw (t, text_eq→eq j k t) e
    | inr f ↦ rw f
  ]

  pub absent_of_fail : (m : P.Bans) (k : Addr6) → P.ban_remove m k ≡ none → P.ban_get m k ≡ none
  absent_of_fail m k e = elim (Option-cases (P.ban_get m k)) [
    | inl n ↦ n
    | inr (v, s) ↦ absurd (L.remove_of_present m k (λ n. cc) e)
  ]

  -- One removal, whether or not it succeeds.
  pub get_removed :
      (m : P.Bans) (k j : Addr6)
      → P.ban_get (unwrap_or m (P.ban_remove m k)) j ≡ (if addr_eq j k then none else P.ban_get m j)
  get_removed m k j = elim (Option-cases (P.ban_remove m k)) [
    | inr (m', e) ↦ rw e (L.get-remove m k j m' e)
    | inl e ↦ rw e (get_absent m k j (absent_of_fail m k e))
  ]

  get-remove_keys :
      (keys : List Addr6) (m : P.Bans) (j : Addr6)
      → P.ban_get (remove_keys P keys m) j ≡ (if has_key j keys then none else P.ban_get m j)
  unfolding remove_keys
  get-remove_keys [] m j = refl
  get-remove_keys (k ∷ keys) m j = get-remove_keys keys _ j ∙ ground (arith, get_removed m k j)

  get-swept :
      (now : ℕ) (bans : P.Bans) (keys : List Addr6) (j : Addr6)
      → expired_keys now (P.ban_iter bans) ≡ some keys
      → P.ban_get (remove_keys P keys bans) j ≡ unexpired now (P.ban_get bans j)
  get-swept now bans keys j e = get-remove_keys keys bans j ∙ elim (Bool-cases (has_key j keys)) [
    | inl t ↦
        let (v, i, x) = listed_sound now (P.ban_iter bans) keys j e t in
        rw t (ground (arith, L.get_of_iter bans j v i, is_expired_lem now v))
    | inr f ↦ rw f (elim (Option-cases (P.ban_get bans j)) [
      | inl n ↦ rw n
      | inr (v, s) ↦ rw s (
          ground (
            arith,
            listed_complete now (P.ban_iter bans) keys j v e
                (L.iter_of_get bans j v (readable now (P.ban_iter bans) keys e) s),
            is_expired_lem now v,
          ))
    ])
  ]

  -- After a sweep that succeeds every address has the ban that it had, if that is permanent (its end
  -- is 0) or ends after the sweep's reading of the clock, and none otherwise.
  pub get-prune :
      (bans m : P.Bans) (n : ℕ) (w w' : World P) (j : Addr6)
      → prune_expired {P = P} bans w ≡ (ok (n, m), w')
      → P.ban_get m j ≡ unexpired (mono_at P w.readings) (P.ban_get bans j)
  get-prune bans m n w w' j h =
      let (keys, e, _, q, _, _) = prune_inv P bans m n w w' h in
      rw q (get-swept (mono_at P w.readings) bans keys j e)
