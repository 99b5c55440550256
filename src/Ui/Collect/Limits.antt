-- ===== src/Ui/Collect/Limits.antt =====
-- The limits that the dashboard shows for a service (`services` and `relevant_to` of
-- ui/src/collect.rs).
use fips_shield.Base.{
  ◌≡◌, refl, Bool, true, false, ◌||◌, ◌&&◌, List, [], ◌∷◌, ◌==◌, arith, In, inl, inr, Bool-cases,
  keep, map, sym, ◌∙◌, ap,
}
use fips_shield.Std.Text.{Text, codes, text_eq, text_eq→eq, starts_with}
use fips_shield.Ui.Collect.{Config, Entry, is_limit, relevant_to, service_of}

-- Two texts of which one starts with the other.
agree : Text → Text → Bool
agree [] q = true
agree (c ∷ p) [] = true
agree (c ∷ p) (d ∷ q) = (c == d) && agree p q

starts_with-agree :
    (s p q : Text) → starts_with s p ≡ true → starts_with s q ≡ true → agree p q ≡ true
unfolding agree starts_with
starts_with-agree s [] q h k = refl
starts_with-agree s (c ∷ p) [] h k = refl
starts_with-agree [] (c ∷ p) (d ∷ q) h k = absurd (ground arith)
starts_with-agree (e ∷ s) (c ∷ p) (d ∷ q) h k = ground (arith, starts_with-agree s p q)

-- The prefixes of the keys of a profile.
data Names (key profile : Text) : Type 0 where
  http : profile ≡ codes "http" → starts_with key (codes "SHIELD_HTTP_") ≡ true → Names key profile
  tcp : profile ≡ codes "tcp" → starts_with key (codes "SHIELD_TCP_") ≡ true → Names key profile
  strfry :
      (prefix : Text)
      → profile ≡ codes "strfry"
      → (agree prefix (codes "SHIELD_HTTP_") ≡ false)
      → (agree prefix (codes "SHIELD_TCP_") ≡ false)
      → starts_with key prefix ≡ true
      → Names key profile

-- No prefix of the keys of strfry goes with one of the others.
strfry_prefix :
    (key : Text)
    → (starts_with key (codes "SHIELD_WS_")
        || starts_with key (codes "SHIELD_STRFRY_")
        || text_eq key (codes "SHIELD_MAX_CONNS_PER_NODE")
        || starts_with key (codes "SHIELD_HANDSHAKE_"))
      ≡ true
    → (prefix : Text) × (agree prefix (codes "SHIELD_HTTP_") ≡ false)
      × (agree prefix (codes "SHIELD_TCP_") ≡ false)
      × (starts_with key prefix ≡ true)
unfolding agree starts_with
strfry_prefix key h = elim (Bool-cases (starts_with key (codes "SHIELD_WS_"))) [
  | inl a ↦ (codes "SHIELD_WS_", refl, refl, a)
  | inr a ↦ elim (Bool-cases (starts_with key (codes "SHIELD_STRFRY_"))) [
    | inl b ↦ (codes "SHIELD_STRFRY_", refl, refl, b)
    | inr b ↦ elim (Bool-cases (text_eq key (codes "SHIELD_MAX_CONNS_PER_NODE"))) [
      | inl c ↦ (
        codes "SHIELD_MAX_CONNS_PER_NODE",
        refl,
        refl,
        rw (text_eq→eq key (codes "SHIELD_MAX_CONNS_PER_NODE") c) refl,
      )
      | inr c ↦ (codes "SHIELD_HANDSHAKE_", refl, refl, ground arith)
    ]
  ]
]

names : (key profile : Text) → relevant_to key profile ≡ true → Names key profile
unfolding relevant_to
names key profile h = elim (Bool-cases (text_eq profile (codes "http"))) [
  | inl e ↦ http (text_eq→eq profile (codes "http") e) (ground arith)
  | inr e ↦ elim (Bool-cases (text_eq profile (codes "tcp"))) [
    | inl f ↦ tcp (text_eq→eq profile (codes "tcp") f) (ground arith)
    | inr f ↦ elim (Bool-cases (text_eq profile (codes "strfry"))) [
      | inl g ↦
          let (prefix, a, b, c) = strfry_prefix key (ground arith) in
          strfry prefix (text_eq→eq profile (codes "strfry") g) a b c
      | inr g ↦ absurd (ground arith)
    ]
  ]
]

clash :
    {A : Type 0} (s p q : Text)
    → agree p q ≡ false
    → starts_with s p ≡ true
    → starts_with s q ≡ true
    → A
clash s p q a h k = absurd (ground (arith, starts_with-agree s p q h k))

one_profile : (key p q : Text) → Names key p → Names key q → p ≡ q
unfolding agree
one_profile key p q (http a x) (http b y) = a ∙ sym b
one_profile key p q (http a x) (tcp b y) =
    clash key (codes "SHIELD_HTTP_") (codes "SHIELD_TCP_") refl x y
one_profile key p q (http a x) (strfry r b u v y) = clash key r (codes "SHIELD_HTTP_") u y x
one_profile key p q (tcp a x) (http b y) =
    clash key (codes "SHIELD_TCP_") (codes "SHIELD_HTTP_") refl x y
one_profile key p q (tcp a x) (tcp b y) = a ∙ sym b
one_profile key p q (tcp a x) (strfry r b u v y) = clash key r (codes "SHIELD_TCP_") v y x
one_profile key p q (strfry r a u v x) (http b y) = clash key r (codes "SHIELD_HTTP_") u x y
one_profile key p q (strfry r a u v x) (tcp b y) = clash key r (codes "SHIELD_TCP_") v x y
one_profile key p q (strfry r a u v x) (strfry r' b u' v' y) = a ∙ sym b

both_true : (a b : Bool) → (a && b) ≡ true → (a ≡ true) × (b ≡ true)
both_true true b h = (refl, h)
both_true false b h = absurd (ground arith)

-- What a shown limit says of its entry.
shown_limit :
    (profile : Text) (entries : List Entry) (key value src : Text)
    → In {A = Entry}
        (key, value, src)
        (map (λ e. (e.1, e.2, e.0)) (keep (λ e. is_limit e.1 && relevant_to e.1 profile) entries))
    → In {A = Entry} (src, key, value) entries × ((is_limit key && relevant_to key profile) ≡ true)
shown_limit profile [] key value src h = absurd h
shown_limit profile ((s, k, v) ∷ entries) key value src h =
    elim (Bool-cases (is_limit k && relevant_to k profile)) [
      | inl t ↦ elim (rw t at h) [
        | inl e ↦
            let same : k ≡ key = ap (λ (x : Entry). x.0) (sym e) in
            (inl (ap (λ (x : Entry). (x.2, x.0, x.1)) e), ground arith)
        | inr i ↦ let (j, l) = shown_limit profile entries key value src i in (inr j, l)
      ]
      | inr f ↦ let (j, l) = shown_limit profile entries key value src (rw f at h) in (inr j, l)
    ]

-- A key is shown as a limit only if it is one and the configuration has it with this value and
-- source, and it is shown for one profile only.
pub service_of-limits :
    (cfg : Config) (p q key value src value' src' : Text)
    → In {A = Entry} (key, value, src) (service_of cfg p).limits
    → In {A = Entry} (key, value', src') (service_of cfg q).limits
    → (p ≡ q) × (is_limit key ≡ true) × In {A = Entry} (src, key, value) cfg.entries
unfolding service_of
service_of-limits cfg p q key value src value' src' h k =
    let (i, x) = shown_limit p cfg.entries key value src h in
    let (_, y) = shown_limit q cfg.entries key value' src' k in
    let (l, m) = both_true (is_limit key) (relevant_to key p) x in
    let (_, n) = both_true (is_limit key) (relevant_to key q) y in
    (one_profile key p q (names key p m) (names key q n), l, i)
