-- ===== src/Ui/Http/Asking.antt =====
-- Requests to ui/src/http.rs for a path with parameters, as a client spells them in a target, and what
-- `read_request` takes them for.
use fips_shield.Base.{
  ℕ, ◌+◌, ◌/◌, ◌%◌, ◌<◌, ◌≤◌, ◌≡◌, ◌≢◌, refl, sym, ap, subst, ◌∙◌, Bool, true, false, not, none,
  some, List, [], ◌∷◌, ◌++◌, All, All-append, append-nil, append_assoc, arith, length, map, keep,
  ok,
}
use fips_shield.Std.Text.{Text, split, split_once}
use fips_shield.Std.Utf8.{Bytes, from_utf8_lossy, as_bytes-ascii, IsAscii}
use fips_shield.Ui.Http.{
  Stream, Request, read_request, request_of, decode_bytes, percent_decode, parse_query, parse_pair,
  is_empty, max_request_line, max_header_bytes, max_headers,
}
use fips_shield.Ui.Http.Decode.{hex_digit, hex_byte_lem}
use fips_shield.Ui.Http.Client.{AreLines, joined}
use fips_shield.Ui.Http.Lines.{sends, AreShort}
use fips_shield.Ui.Http.Accepting.{is_target, request_text, read_request-request_text}

-- Bytes, each with whether it is sent as it is, or else as an escape.
abbrev pub Spelled : Type 0
Spelled = List (ℕ × Bool)

abbrev pub bytes_of : Spelled → Bytes
bytes_of [] = []
bytes_of ((b, plain) ∷ s) = b ∷ bytes_of s

unfoldable pub spell : Spelled → Text
unfolding hex_digit
spell [] = []
spell ((b, true) ∷ s) = b ∷ spell s
spell ((b, false) ∷ s) = b'%' ∷ hex_digit (b / 16) ∷ hex_digit (b % 16) ∷ spell s

-- A character of a target that does not separate its parts.
abbrev pub IsInner : ℕ → Type 0
IsInner c = (0x20 < c) × (c < 0x7f) × (c ≢ b'?') × (c ≢ b'&') × (c ≢ b'=')

-- What may be sent as it is is visible ASCII, but no separator, no percent sign and no plus sign.
abbrev pub IsSpelled : Spelled → Type 0
IsSpelled [] = Unit
IsSpelled ((b, true) ∷ s) = (IsInner b × (b ≢ b'%') × (b ≢ b'+')) × IsSpelled s
IsSpelled ((b, false) ∷ s) = (b < 256) × IsSpelled s

hex_digit-IsInner : (d : ℕ) → d < 16 → IsInner (hex_digit d)
unfolding hex_digit
hex_digit-IsInner d h = ground arith

spell-IsInner : (s : Spelled) → IsSpelled s → All IsInner (spell s)
unfolding spell
spell-IsInner [] h = tt
spell-IsInner ((b, true) ∷ s) ((h, _, _), hs) = (h, spell-IsInner s hs)
spell-IsInner ((b, false) ∷ s) (h, hs) = (
  ground arith,
  (
    hex_digit-IsInner (b / 16) (omega arith),
    (hex_digit-IsInner (b % 16) (omega arith), spell-IsInner s hs),
  ),
)

decode_plain : (c : ℕ) (r : Bytes) → c ≢ b'%' → c ≢ b'+' → decode_bytes (c ∷ r) ≡ c ∷ decode_bytes r
unfolding decode_bytes
decode_plain c [] p q = ground arith
decode_plain c (d ∷ []) p q = ground arith
decode_plain c (d ∷ e ∷ r) p q = ground arith

decode-spell : (s : Spelled) → IsSpelled s → decode_bytes (spell s) ≡ bytes_of s
unfolding spell decode_bytes
decode-spell [] h = refl
decode-spell ((b, true) ∷ s) ((_, p, q), hs) =
    decode_plain b (spell s) p q ∙ ap (λ t. b ∷ t) (decode-spell s hs)
decode-spell ((b, false) ∷ s) (h, hs) = rw (hex_byte_lem b h) (ap (λ t. b ∷ t) (decode-spell s hs))

inner-IsAscii : (t : Text) → All IsInner t → All IsAscii t
inner-IsAscii [] h = tt
inner-IsAscii (c ∷ t) (h, hs) = (omega (arith, h.1), inner-IsAscii t hs)

percent_decode-spell :
    (s : Spelled) → IsSpelled s → percent_decode (spell s) ≡ from_utf8_lossy (bytes_of s)
unfolding percent_decode
percent_decode-spell s h =
    rw (as_bytes-ascii (spell s) (inner-IsAscii (spell s) (spell-IsInner s h)))
      (ap from_utf8_lossy (decode-spell s h))

-- A separator that does not occur, and the first one.
split_once-none : (sep : ℕ) (t : Text) → All (λ c. c ≢ sep) t → split_once sep t ≡ none
unfolding split_once
split_once-none sep [] h = refl
split_once-none sep (c ∷ t) (h, hs) = ground (arith, split_once-none sep t hs)

split_once-first :
    (sep : ℕ) (t u : Text) → All (λ c. c ≢ sep) t → split_once sep (t ++ (sep ∷ u)) ≡ some (t, u)
unfolding split_once
split_once-first sep [] u h = ground arith
split_once-first sep (c ∷ t) u (h, hs) = ground (arith, split_once-first sep t u hs)

split-none : (sep : ℕ) (t : Text) → All (λ c. c ≢ sep) t → split sep t ≡ t ∷ []
unfolding split
split-none sep [] h = refl
split-none sep (c ∷ t) (h, hs) = rw (split-none sep t hs) (ground arith)

split-first :
    (sep : ℕ) (t u : Text) → All (λ c. c ≢ sep) t → split sep (t ++ (sep ∷ u)) ≡ t ∷ split sep u
unfolding split
split-first sep [] u h = ground arith
split-first sep (c ∷ t) u (h, hs) = rw (split-first sep t u hs) (ground arith)

-- Names and values of parameters.
abbrev pub Params : Type 0
Params = List (Spelled × Spelled)

abbrev pair_text : Spelled × Spelled → Text
pair_text p = spell p.0 ++ (b'=' ∷ spell p.1)

abbrev query_text : Spelled × Spelled → Params → Text
query_text p [] = pair_text p
query_text p (q ∷ ps) = pair_text p ++ (b'&' ∷ query_text q ps)

-- The target for a path with parameters.
abbrev pub target_of : Spelled → Params → Text
target_of path [] = spell path
target_of path (p ∷ ps) = spell path ++ (b'?' ∷ query_text p ps)

abbrev pub AreSpelled : Params → Type 0
AreSpelled = All (λ p. IsSpelled p.0 × IsSpelled p.1)

abbrev pub decoded : Spelled × Spelled → Text × Text
decoded p = (from_utf8_lossy (bytes_of p.0), from_utf8_lossy (bytes_of p.1))

-- What a request with these parts says.
abbrev pub says : Spelled → Params → Request
says path params = record { path = from_utf8_lossy (bytes_of path); query = map decoded params }

not_inner : (sep : ℕ) → ¬ IsInner sep → (t : Text) → All IsInner t → All (λ c. c ≢ sep) t
not_inner sep n [] h = tt
not_inner sep n (c ∷ t) (h, hs) = ((λ e. n (subst IsInner e h)), not_inner sep n t hs)

no_question : ¬ IsInner b'?'
no_question (_, _, n, _, _) = n refl

no_and : ¬ IsInner b'&'
no_and (_, _, _, n, _) = n refl

no_equals : ¬ IsInner b'='
no_equals (_, _, _, _, n) = n refl

pair-no_and :
    (p : Spelled × Spelled) → IsSpelled p.0 → IsSpelled p.1 → All (λ c. c ≢ b'&') (pair_text p)
pair-no_and p h k =
    All-append _ (spell p.0) _ (not_inner b'&' no_and (spell p.0) (spell-IsInner p.0 h))
      ((λ e. omega (arith, e)), not_inner b'&' no_and (spell p.1) (spell-IsInner p.1 k))

pair-not_empty : (t u : Text) (c : ℕ) → is_empty (t ++ (c ∷ u)) ≡ false
unfolding is_empty
pair-not_empty [] u c = refl
pair-not_empty (d ∷ t) u c = refl

parse_pair-text :
    (p : Spelled × Spelled) → IsSpelled p.0 → IsSpelled p.1 → parse_pair (pair_text p) ≡ decoded p
unfolding parse_pair
parse_pair-text p h k =
    rw
      (
        parse_pair,
        split_once-first b'=' (spell p.0) (spell p.1)
            (not_inner b'=' no_equals (spell p.0) (spell-IsInner p.0 h)),
      )
      (ap (λ x. (x, percent_decode (spell p.1))) (percent_decode-spell p.0 h)
        ∙ ap (λ x. (from_utf8_lossy (bytes_of p.0), x)) (percent_decode-spell p.1 k))

split-query :
    (p : Spelled × Spelled) (ps : Params)
    → AreSpelled (p ∷ ps)
    → split b'&' (query_text p ps) ≡ map pair_text (p ∷ ps)
split-query p [] ((h, k), _) = split-none b'&' (pair_text p) (pair-no_and p h k)
split-query p (q ∷ ps) ((h, k), hs) =
    split-first b'&' (pair_text p) (query_text q ps) (pair-no_and p h k)
    ∙ ap (λ l. pair_text p ∷ l) (split-query q ps hs)

parse_pairs-text :
    (ps : Params)
    → AreSpelled ps
    → map parse_pair (keep (λ p. not (is_empty p)) (map pair_text ps)) ≡ map decoded ps
parse_pairs-text [] h = refl
parse_pairs-text (p ∷ ps) ((h, k), hs) = rw (pair-not_empty (spell p.0) (spell p.1) b'=') (
    ap (λ x. x ∷ map parse_pair (keep (λ q. not (is_empty q)) (map pair_text ps)))
      (parse_pair-text p h k)
    ∙ ap (λ l. decoded p ∷ l) (parse_pairs-text ps hs))

request_of-target :
    (path : Spelled) (params : Params)
    → IsSpelled path
    → AreSpelled params
    → request_of (target_of path params) ≡ says path params
unfolding request_of parse_query
request_of-target path [] h hs =
    rw
      (
        request_of,
        split_once-none b'?' (spell path)
            (not_inner b'?' no_question (spell path) (spell-IsInner path h)),
      )
      (ap (λ x. record { path = x; query = [] }) (percent_decode-spell path h))
request_of-target path (p ∷ ps) h hs =
    rw
      (
        request_of,
        split_once-first b'?' (spell path) (query_text p ps)
            (not_inner b'?' no_question (spell path) (spell-IsInner path h)),
      )
      (ap (λ x. record { path = x; query = parse_query (query_text p ps) })
          (percent_decode-spell path h)
        ∙ ap (λ l. record { path = from_utf8_lossy (bytes_of path); query = l })
            (ap (λ l. map parse_pair (keep (λ q. not (is_empty q)) l)) (split-query p ps hs)
              ∙ parse_pairs-text (p ∷ ps) hs))

inner-is_target : (t u : Text) → All IsInner t → is_target u ≡ true → is_target (t ++ u) ≡ true
unfolding is_target
inner-is_target [] u h e = e
inner-is_target (c ∷ t) u (h, hs) e = ground (arith, inner-is_target t u hs e)

spelled-is_target : (s : Spelled) → IsSpelled s → is_target (spell s) ≡ true
spelled-is_target s h =
    subst (λ t. is_target t ≡ true) (append-nil (spell s))
      (inner-is_target (spell s) [] (spell-IsInner s h) (unfold is_target in refl))

separated :
    (s : Spelled) (c : ℕ) (u : Text)
    → IsSpelled s
    → 0x20 < c
    → c < 0x7f
    → is_target u ≡ true
    → is_target (spell s ++ (c ∷ u)) ≡ true
unfolding is_target
separated s c u h a b e = inner-is_target (spell s) (c ∷ u) (spell-IsInner s h) (ground arith)

query-is_target :
    (p : Spelled × Spelled) (ps : Params) → AreSpelled (p ∷ ps) → is_target (query_text p ps) ≡ true
query-is_target p [] ((h, k), _) =
    separated p.0 b'=' (spell p.1) h (omega arith) (omega arith) (spelled-is_target p.1 k)
query-is_target p (q ∷ ps) ((h, k), hs) =
    subst (λ t. is_target t ≡ true)
      (sym (append_assoc (spell p.0) (b'=' ∷ spell p.1) (b'&' ∷ query_text q ps)))
      (separated p.0 b'=' (spell p.1 ++ (b'&' ∷ query_text q ps)) h (omega arith) (omega arith) (
        separated p.1 b'&' (query_text q ps) k (omega arith) (omega arith)
          (query-is_target q ps hs)))

target-is_target :
    (path : Spelled) (params : Params)
    → IsSpelled path
    → AreSpelled params
    → is_target (target_of path params) ≡ true
target-is_target path [] h hs = spelled-is_target path h
target-is_target path (p ∷ ps) h hs =
    separated path b'?' (query_text p ps) h (omega arith) (omega arith) (query-is_target p ps hs)

-- A GET request for a path with parameters is accepted, and what it says is the path and the names and
-- values of the parameters, in order, however the client spells their bytes as escapes or, where
-- that is allowed, as they are. The target, with `GET` and the version, and each header fit in
-- 8 KiB with their ends, there are fewer than 100 headers, none of them empty and all of them
-- printable ASCII, and they take at most 32 KiB together.
pub read_request-says :
    (path : Spelled) (params : Params) (headers : List Text) (s : Stream)
    → IsSpelled path
    → AreSpelled params
    → length (target_of path params) + 15 ≤ max_request_line
    → AreLines headers
    → AreShort headers
    → length headers < max_headers
    → length (joined headers) ≤ max_header_bytes
    → (read_request (sends (request_text (target_of path params) headers) s)).0
      ≡ ok (says path params)
read_request-says path params headers s h hs m l k n b =
    ap (λ x. x.0)
      (read_request-request_text (target_of path params) headers s
        (target-is_target path params h hs) m l k n b)
    ∙ ap ok (request_of-target path params h hs)
