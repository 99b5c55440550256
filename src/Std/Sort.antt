-- ===== src/Std/Sort.antt =====
-- `sort_by_key` of slices, by a test of the keys: it is stable, and an insertion sort gives what
-- any stable sort does.
use fips_shield.Base.{
  ◌≡◌, Bool, true, false, List, [], ◌∷◌, All, if◌then◌else◌, Bool-cases, inl, inr, In, ◌↔◌,
}
use mathlib.Core.List.Perm
use mathlib.Core.List.{Perm}

module _ {A : Type 0} (before : A → A → Bool) where
  pub insert_by : A → List A → List A
  insert_by a [] = a ∷ []
  insert_by a (b ∷ l) = let rest = insert_by a l in if before a b then a ∷ b ∷ l else b ∷ rest

  unfoldable pub sort_by : List A → List A
  unfolding insert_by
  sort_by [] = []
  sort_by (a ∷ l) = insert_by a (sort_by l)

  -- Each item comes before those after it.
  abbrev pub IsSortedBy : List A → Type 0
  IsSortedBy [] = Unit
  IsSortedBy (a ∷ l) = All (λ b. before a b ≡ true) l × IsSortedBy l

  insert_by-perm : (a : A) (l : List A) → Perm (insert_by a l) (a ∷ l)
  unfolding insert_by
  insert_by-perm a [] = Perm.refl (a ∷ [])
  insert_by-perm a (b ∷ l) = elim (Bool-cases (before a b)) [
    | inl e ↦ rw (e, insert_by) (Perm.refl (a ∷ b ∷ l))
    | inr e ↦ rw (e, insert_by) (Perm.trans (Perm.cons b (insert_by-perm a l)) (Perm.swap a b l))
  ]

  pub sort_by-perm : (l : List A) → Perm (sort_by l) l
  unfolding sort_by
  sort_by-perm [] = Perm.nil
  sort_by-perm (a ∷ l) = Perm.trans (insert_by-perm a (sort_by l)) (Perm.cons a (sort_by-perm l))

  All-insert_by : (P : A → Type 0) (a : A) (l : List A) → P a → All P l → All P (insert_by a l)
  unfolding insert_by
  All-insert_by P a [] p h = (p, tt)
  All-insert_by P a (b ∷ l) p (h, hs) = elim (Bool-cases (before a b)) [
    | inl e ↦ rw (e, insert_by) (p, (h, hs))
    | inr e ↦ rw (e, insert_by) (h, All-insert_by P a l p hs)
  ]

  pub All-sort_by : (P : A → Type 0) (l : List A) → All P l → All P (sort_by l)
  unfolding sort_by
  All-sort_by P [] h = tt
  All-sort_by P (a ∷ l) (h, hs) = All-insert_by P a (sort_by l) h (All-sort_by P l hs)

  module _ (trans : (a b c : A) → before a b ≡ true → before b c ≡ true → before a c ≡ true)
      (total : (a b : A) → before a b ≡ false → before b a ≡ true) where
    All-before :
        (a b : A) (l : List A)
        → before a b ≡ true
        → All (λ c. before b c ≡ true) l
        → All (λ c. before a c ≡ true) l
    All-before a b [] h k = tt
    All-before a b (c ∷ l) h (k, ks) = (trans a b c h k, All-before a b l h ks)

    insert_by-IsSortedBy : (a : A) (l : List A) → IsSortedBy l → IsSortedBy (insert_by a l)
    unfolding insert_by
    insert_by-IsSortedBy a [] h = (tt, tt)
    insert_by-IsSortedBy a (b ∷ l) (h, hs) = elim (Bool-cases (before a b)) [
      | inl e ↦ rw (e, insert_by) ((e, All-before a b l e h), (h, hs))
      | inr e ↦
          rw (e, insert_by)
            (
              All-insert_by (λ c. before b c ≡ true) a l (total a b e) h,
              insert_by-IsSortedBy a l hs,
            )
    ]

    pub sort_by-IsSortedBy : (l : List A) → IsSortedBy (sort_by l)
    unfolding sort_by
    sort_by-IsSortedBy [] = tt
    sort_by-IsSortedBy (a ∷ l) = insert_by-IsSortedBy a (sort_by l) (sort_by-IsSortedBy l)

  -- A relation between any two items.
  abbrev pub Pairwise : (A → A → Type 0) → List A → Type 0
  Pairwise R [] = Unit
  Pairwise R (a ∷ l) = All (R a) l × Pairwise R l

  module _ (R : A → A → Type 0) (symmetric : (a b : A) → R a b → R b a) where
    insert_by-Pairwise :
        (a : A) (l : List A) → All (R a) l → Pairwise R l → Pairwise R (insert_by a l)
    unfolding insert_by
    insert_by-Pairwise a [] h k = (tt, tt)
    insert_by-Pairwise a (b ∷ l) (h, hs) (k, ks) = elim (Bool-cases (before a b)) [
      | inl e ↦ rw (e, insert_by) ((h, hs), (k, ks))
      | inr e ↦
          rw (e, insert_by)
            (All-insert_by (R b) a l (symmetric a b h) k, insert_by-Pairwise a l hs ks)
    ]

    pub sort_by-Pairwise : (l : List A) → Pairwise R l → Pairwise R (sort_by l)
    unfolding sort_by
    sort_by-Pairwise [] h = tt
    sort_by-Pairwise (a ∷ l) (h, hs) =
        insert_by-Pairwise a (sort_by l) (All-sort_by (R a) l h) (sort_by-Pairwise l hs)

  In-insert_by : (x a : A) (l : List A) → In x (insert_by a l) ↔ In x (a ∷ l)
  unfolding insert_by
  In-insert_by x a [] = ((λ i. i), λ i. i)
  In-insert_by x a (b ∷ l) = elim (Bool-cases (before a b)) [
    | inl e ↦ rw (e, insert_by) ((λ i. i), λ i. i)
    | inr e ↦
        let (there, back) = In-insert_by x a l in
        rw (e, insert_by)
          (
            (λ i. elim i [
              | inl p ↦ inr (inl p)
              | inr j ↦ elim (there j) [ inl p ↦ inl p | inr k ↦ inr (inr k) ]
            ]),
            λ i. elim i [
              | inl p ↦ inr (back (inl p))
              | inr j ↦ elim j [ inl p ↦ inl p | inr k ↦ inr (back (inr k)) ]
            ],
          )
  ]

  pub In-sort_by : (x : A) (l : List A) → In x (sort_by l) ↔ In x l
  unfolding sort_by
  In-sort_by x [] = ((λ i. i), λ i. i)
  In-sort_by x (a ∷ l) =
      let (there, back) = In-insert_by x a (sort_by l) in
      let (more, less) = In-sort_by x l in
      (
        (λ i. elim (there i) [ inl p ↦ inl p | inr j ↦ inr (more j) ]),
        λ i. back (elim i [ inl p ↦ inl p | inr j ↦ inr (less j) ]),
      )
