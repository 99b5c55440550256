-- ===== src/Ui/Http/Accepting.antt =====
-- What `read_request` of ui/src/http.rs makes of a well-formed GET request.
use fips_shield.Base.{
  ℕ, ◌+◌, ◌<◌, ◌≤◌, ◌≡◌, refl, Bool, true, ◌&&◌, List, [], ◌∷◌, ◌++◌, ltb, length, length-append,
  append_assoc, arith, ◌∙◌, ap, ok,
}
use fips_shield.Std.Text.{Text, codes, split, trim_end, ends_with, text_eq}
use fips_shield.Ui.Http.{
  Stream, read_rest, read_request, request_parts, request_of, max_request_line, max_header_bytes,
  max_headers,
}
use fips_shield.Ui.Http.Client.{is_plain, is_plain-append, AreLines, joined}
use fips_shield.Ui.Http.Lines.{ended, sends, AreShort, read_line-ended, drain-joined}

-- Visible ASCII: no space ends the target early.
unfoldable pub is_target : Text → Bool
is_target [] = true
is_target (c ∷ s) = ltb 0x20 c && ltb c 0x7f && is_target s

abbrev version : Text
version = codes " HTTP/1.1"

abbrev pub get_line : Text → Text
get_line target = codes "GET " ++ (target ++ version)

-- A GET request with the lines of its headers.
abbrev pub request_text : Text → List Text → Text
request_text target headers = ended (get_line target) ++ ended (joined headers)

is_target-is_plain : (s : Text) → is_target s ≡ true → is_plain s ≡ true
unfolding is_target is_plain
is_target-is_plain [] h = refl
is_target-is_plain (c ∷ s) h = ground (arith, is_target-is_plain s)

is_plain-get_line : (target : Text) → is_target target ≡ true → is_plain (get_line target) ≡ true
is_plain-get_line target h =
    is_plain-append (codes "GET ") (target ++ version) (unfold is_plain in refl)
      (is_plain-append target version (is_target-is_plain target h) (unfold is_plain in refl))

length-get_line : (target : Text) → length (get_line target) ≡ length target + 13
length-get_line target = simp length-append (omega arith)

-- White space after a text that ends with something else is trimmed.
trim_end-append :
    (s t : Text) (c : ℕ) (u : Text) → trim_end t ≡ c ∷ u → trim_end (s ++ t) ≡ s ++ (c ∷ u)
unfolding trim_end
trim_end-append [] t c u h = h
trim_end-append (d ∷ []) t c u h = rw (trim_end, h) refl
trim_end-append (d ∷ e ∷ s) t c u h = rw (trim_end, trim_end-append (e ∷ s) t c u h) refl

split-target :
    (target s : Text)
    → is_target target ≡ true
    → split b' ' (target ++ (b' ' ∷ s)) ≡ target ∷ split b' ' s
unfolding split is_target
split-target [] s h = refl
split-target (c ∷ target) s h = rw (split-target target s (ground arith)) (ground arith)

trim_end-get_line : (target : Text) → trim_end (ended (get_line target)) ≡ get_line target
trim_end-get_line target =
    ap (λ t. trim_end (codes "GET " ++ t)) (append_assoc target version (b'\r' ∷ b'\n' ∷ []))
    ∙ trim_end-append (codes "GET " ++ target) (version ++ (b'\r' ∷ b'\n' ∷ [])) b' '
        (codes "HTTP/1.1") (unfold trim_end in refl)

split-get_line :
    (target : Text)
    → is_target target ≡ true
    → split b' ' (get_line target) ≡ codes "GET" ∷ target ∷ codes "HTTP/1.1" ∷ []
unfolding split
split-get_line target h = rw (split-target target (codes "HTTP/1.1") h) refl

-- What the parts of a request line are taken for.
abbrev first_two : List Text → Text × Text
first_two [] = ([], [])
first_two (method ∷ []) = (method, [])
first_two (method ∷ target ∷ more) = (method, target)

request_parts-get_line :
    (target : Text)
    → is_target target ≡ true
    → request_parts (ended (get_line target)) ≡ (codes "GET", target)
unfolding request_parts
request_parts-get_line target h =
    let parts : split b' ' (trim_end (ended (get_line target)))
        ≡ codes "GET" ∷ target ∷ codes "HTTP/1.1" ∷ [] =
      ap (split b' ') (trim_end-get_line target) ∙ split-get_line target h in
    ap first_two parts

read_rest-get_line :
    (target : Text) (headers : List Text) (s : Stream)
    → is_target target ≡ true
    → AreLines headers
    → AreShort headers
    → length headers < max_headers
    → length (joined headers) ≤ max_header_bytes
    → read_rest (ended (get_line target)) (sends (ended (joined headers)) s)
      ≡ (ok (request_of target), s)
unfolding read_rest text_eq
read_rest-get_line target headers s h hs k n b = ground (
  arith,
  request_parts-get_line target h,
  drain-joined headers max_headers 0 s hs k n (omega arith),
)

ends_with-ended : (l : Text) → ends_with b'\n' (ended l) ≡ true
unfolding ends_with
ends_with-ended [] = refl
ends_with-ended (c ∷ []) = refl
ends_with-ended (c ∷ d ∷ l) = ends_with-ended (d ∷ l)

-- A GET request is accepted and stands for `request_of` its target, and the reader is left with what
-- follows it, if the target is visible ASCII, the request line and each header fit in 8 KiB with their ends,
-- there are fewer than 100 headers, none of them empty and all of them printable ASCII, and they
-- take at most 32 KiB together.
pub read_request-request_text :
    (target : Text) (headers : List Text) (s : Stream)
    → is_target target ≡ true
    → length target + 15 ≤ max_request_line
    → AreLines headers
    → AreShort headers
    → length headers < max_headers
    → length (joined headers) ≤ max_header_bytes
    → read_request (sends (request_text target headers) s) ≡ (ok (request_of target), s)
unfolding read_request
read_request-request_text target headers s h m hs k n b =
    let rest = sends (ended (joined headers)) s in
    let len = length-get_line target in
    let parts : sends (request_text target headers) s ≡ sends (ended (get_line target)) rest =
      ap (λ t. record { bytes = t; fails = s.fails })
        (append_assoc (ended (get_line target)) (ended (joined headers)) s.bytes) in
    ap read_request parts
    ∙ ground (
      arith,
      read_line-ended max_request_line (get_line target) rest (is_plain-get_line target h)
          (omega arith),
      ends_with-ended (get_line target),
      read_rest-get_line target headers s h hs k n b,
      length-append (get_line target) (b'\r' ∷ b'\n' ∷ []),
    )
