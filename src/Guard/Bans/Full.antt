-- ===== src/Guard/Bans/Full.antt =====
-- A ban map that is full (`cmd_ban`, the retry after `prune_expired`).
use fips_shield.Base.{
  ℕ, ◌≤◌, ◌<◌, ◌≡◌, ◌≢◌, inl, inr, refl, true, Option, none, some, List, [], ◌∷◌, arith,
  if◌then◌else◌, ok, Option-cases, ◌∙◌, unwrap_or, length, In, All,
}
use fips_shield.Base.Int.{ℤ}
use fips_shield.Std.Text.{Text, text_eq_refl}
use fips_shield.Guard.Kernel.{Addr6, BanVal, Platform, BansLaws, CapacityLaws}
use fips_shield.Guard.Cmd.{World, parse_v6, mono_at}
use fips_shield.Guard.Bans.{
  is_expired, expired_keys, remove_keys, prune_expired, sweep, insert_ban, ban_value, ban_address,
  cmd_ban,
}
use fips_shield.Guard.Bans.Prune.{listed_sound, listed_complete}
use fips_shield.Guard.Bans.Ban.{value_at, ban_value_lem}

abbrev Readable : (P : Platform) → P.Bans → Type 0
Readable P m = All (λ e. e ≢ none) (P.ban_iter m)

-- Lapsed entries are listed if every entry can be read.
expired_keys_total :
    (now : ℕ) (entries : List (Option (Addr6 × BanVal)))
    → All (λ e. e ≢ none) entries
    → (keys : List Addr6) × (expired_keys now entries ≡ some keys)
unfolding expired_keys
expired_keys_total now [] h = ([], refl)
expired_keys_total now (none ∷ entries) h = absurd (h.0 refl)
expired_keys_total now (some (k, v) ∷ entries) h =
    let (keys, e) = expired_keys_total now entries h.1 in
    (if is_expired now v then k ∷ keys else keys, ground arith)

module _ (P : Platform) (L : BansLaws P) (C : CapacityLaws P) where
  length-removed :
      (m : P.Bans) (k : Addr6)
      → (length (P.ban_iter (unwrap_or m (P.ban_remove m k))) ≤ length (P.ban_iter m))
        × (P.max_entries (unwrap_or m (P.ban_remove m k)) ≡ P.max_entries m)
  length-removed m k = elim (Option-cases (P.ban_remove m k)) [
    | inl e ↦ rw e (omega arith, refl)
    | inr (m', e) ↦ rw e (C.remove_le m k m' e, C.max_entries-remove m k m' e)
  ]

  -- Removing keys never grows the map, and keeps its capacity.
  length-remove_keys :
      (keys : List Addr6) (m : P.Bans)
      → (length (P.ban_iter (remove_keys P keys m)) ≤ length (P.ban_iter m))
        × (P.max_entries (remove_keys P keys m) ≡ P.max_entries m)
  unfolding remove_keys
  length-remove_keys [] m = (omega arith, refl)
  length-remove_keys (k ∷ keys) m =
      let (l, c) = length-removed m k in
      let (l', c') = length-remove_keys keys (unwrap_or m (P.ban_remove m k)) in
      (omega arith, c' ∙ c)

  -- A sweep that lists a key frees an entry.
  length-swept :
      (now : ℕ) (bans : P.Bans) (k : Addr6) (keys : List Addr6)
      → expired_keys now (P.ban_iter bans) ≡ some (k ∷ keys)
      → length (P.ban_iter (remove_keys P (k ∷ keys) bans)) < length (P.ban_iter bans)
  unfolding remove_keys
  length-swept now bans k keys e =
      let (v, i, x) =
        listed_sound now (P.ban_iter bans) (k ∷ keys) k e (ground (arith, text_eq_refl k)) in
      let g : P.ban_get bans k ≡ some v = L.get_of_iter bans k v i in
      elim (Option-cases (P.ban_remove bans k)) [
        | inl r ↦ absurd (L.remove_of_present bans k (λ n. cc) r)
        | inr (m', r) ↦
            rw r (
              omega (arith, C.remove_shrinks bans k m' (λ n. cc) r, (length-remove_keys keys m').0))
      ]

  -- A sweep of a map that holds a lapsed entry makes room.
  insert_of_swept :
      (now c : ℕ) (bans : P.Bans) (key j : Addr6) (val v : BanVal) (keys : List Addr6)
      → P.max_entries bans ≡ some c
      → length (P.ban_iter bans) ≤ c
      → In (some (j, v)) (P.ban_iter bans)
      → is_expired now v ≡ true
      → expired_keys now (P.ban_iter bans) ≡ some keys
      → P.ban_insert (remove_keys P keys bans) key val ≢ none
  insert_of_swept now c bans key j val v [] m l i x e =
      absurd (ground (arith, listed_complete now (P.ban_iter bans) [] j v e i x))
  insert_of_swept now c bans key j val v (k ∷ keys) m l i x e =
      C.insert_of_room (remove_keys P (k ∷ keys) bans) key val c
        ((length-remove_keys (k ∷ keys) bans).1 ∙ m) (omega (arith, length-swept now bans k keys e))

  insert_ban_full :
      (key j : Addr6) (val v : BanVal) (bans : P.Bans) (w : World P) (c : ℕ)
      → Readable P bans
      → P.max_entries bans ≡ some c
      → length (P.ban_iter bans) ≤ c
      → In (some (j, v)) (P.ban_iter bans)
      → is_expired (mono_at P w.readings) v ≡ true
      → (insert_ban {P = P} key val bans w).0 ≡ ok tt
  unfolding insert_ban sweep prune_expired
  insert_ban_full key j val v bans w c r m l i x =
      let (keys, e) = expired_keys_total (mono_at P w.readings) (P.ban_iter bans) r in
      elim (Option-cases (P.ban_insert (remove_keys P keys bans) key val)) [
        | inl n ↦
            absurd (insert_of_swept (mono_at P w.readings) c bans key j val v keys m l i x e n)
        | inr (m', s) ↦ ground arith
      ]

  -- A full map does not stop a ban: with the map of bans pinned, all of its entries readable and
  -- not more than it can hold, one ban in it that has lapsed is enough for a new ban of an IPv6
  -- address to succeed, if the clock does not run backwards.
  pub cmd_ban_full :
      (ip : Text) (seconds : ℤ) (a j : Addr6) (v : BanVal) (bans : P.Bans) (w : World P) (c : ℕ)
      → parse_v6 ip ≡ ok (some a)
      → w.pins.bans ≡ some bans
      → Readable P bans
      → P.max_entries bans ≡ some c
      → length (P.ban_iter bans) ≤ c
      → In (some (j, v)) (P.ban_iter bans)
      → is_expired (mono_at P w.readings) v ≡ true
      → ((n m : ℕ) → n ≤ m → mono_at P n ≤ mono_at P m)
      → (cmd_ban {P = P} ip seconds w).0 ≡ ok tt
  unfolding cmd_ban ban_address is_expired
  cmd_ban_full ip seconds a j v bans w c p e r m l i x clock =
      let w1 : World P = (ban_value {P = P} seconds w).1 in
      let le : mono_at P w.readings ≤ mono_at P w1.readings =
        clock w.readings w1.readings (ban_value_lem seconds w).2 in
      ground (
        arith,
        ban_value_lem {P = P} seconds w,
        insert_ban_full a j (value_at {P = P} w seconds) v bans w1 c r m l i (ground arith),
      )
