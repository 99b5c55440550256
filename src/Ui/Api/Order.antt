-- ===== src/Ui/Api/Order.antt =====
-- The order of the bans that `/api/status` shows (`sort_by_key` and `recent` of ui/src/main.rs).
use fips_shield.Base.{
  false, true, ◌≤◌, ◌≡◌, ◌++◌, List, [], ◌∷◌, arith, All, All-append, drop, take-append-drop,
  length, length-take, min,
}
use mathlib.Core.List.Perm
use mathlib.Core.List.{Perm, reverse, reverse_perm, reverse-cons}
use fips_shield.Std.Sort.{sort_by-perm, sort_by-IsSortedBy, IsSortedBy}
use fips_shield.Ui.Collect.Bans.{Ban}
use fips_shield.Ui.Api.{sort_key, sorts_before, sort_by_key, recent}

-- No ban has a key above that of one before it.
abbrev pub Descending : List Ban → Type 0
Descending [] = Unit
Descending (b ∷ l) = All (λ c. sort_key c ≤ sort_key b) l × Descending l

-- The order of the keys, as a test.
before_trans :
    (a b c : Ban) → sorts_before a b ≡ true → sorts_before b c ≡ true → sorts_before a c ≡ true
unfolding sorts_before
before_trans a b c h k = ground arith

before_total : (a b : Ban) → sorts_before a b ≡ false → sorts_before b a ≡ true
unfolding sorts_before
before_total a b h = ground arith

sort_by_key-perm : (l : List Ban) → Perm (sort_by_key l) l
unfolding sort_by_key
sort_by_key-perm l = sort_by-perm sorts_before l

sort_by_key-IsSortedBy : (l : List Ban) → IsSortedBy sorts_before (sort_by_key l)
unfolding sort_by_key
sort_by_key-IsSortedBy l = sort_by-IsSortedBy sorts_before before_trans before_total l

keys_le :
    (b : Ban) (l : List Ban)
    → All (λ c. sorts_before b c ≡ true) l
    → All (λ c. sort_key b ≤ sort_key c) l
unfolding sorts_before
keys_le b [] h = tt
keys_le b (c ∷ l) (h, hs) = (ground arith, keys_le b l hs)

Descending-append :
    (l : List Ban) (b : Ban)
    → Descending l
    → All (λ c. sort_key b ≤ sort_key c) l
    → Descending (l ++ (b ∷ []))
Descending-append [] b h k = (tt, tt)
Descending-append (c ∷ l) b (h, hs) (k, ks) =
    (All-append _ l (b ∷ []) h (k, tt), Descending-append l b hs ks)

All-reverse : (P : Ban → Type 0) (l : List Ban) → All P l → All P (reverse l)
All-reverse P [] h = tt
All-reverse P (b ∷ l) (h, hs) =
    rw (reverse-cons b l) (All-append P (reverse l) (b ∷ []) (All-reverse P l hs) (h, tt))

reverse-Descending : (l : List Ban) → IsSortedBy sorts_before l → Descending (reverse l)
reverse-Descending [] h = tt
reverse-Descending (b ∷ l) (h, hs) =
    rw (reverse-cons b l)
      (Descending-append (reverse l) b (reverse-Descending l hs) (All-reverse _ l (keys_le b l h)))

-- The bans shown are the first 20, or all if there are fewer, of an arrangement of the bans in
-- which none has a later expiry than one before it, a permanent one counting as the latest.
pub recent-Descending :
    (l : List Ban)
    → (rest : List Ban) × Perm (recent l ++ rest) l
      × Descending (recent l ++ rest)
      × (length (recent l) ≡ min 20 (length (recent l ++ rest)))
unfolding recent
recent-Descending l =
    let all = reverse (sort_by_key l) in
    (
      drop 20 all,
      rw (take-append-drop 20 all) (Perm.trans (reverse_perm (sort_by_key l)) (sort_by_key-perm l)),
      rw (take-append-drop 20 all) (reverse-Descending (sort_by_key l) (sort_by_key-IsSortedBy l)),
      rw (take-append-drop 20 all) (length-take 20 all),
    )
