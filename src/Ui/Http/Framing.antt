-- ===== src/Ui/Http/Framing.antt =====
-- What a client reads of the bytes that `write_response` of ui/src/http.rs sends.
use fips_shield.Base.{
  ℕ, ◌≡◌, refl, true, some, List, [], ◌∷◌, ◌++◌, ◌==◌, length, All-append, append_assoc, arith, ◌∙◌,
  ap,
}
use fips_shield.Std.Text.{Text, codes, strip_prefix}
use fips_shield.Std.Number.{to_text, to_text-IsDigit}
use fips_shield.Std.Number.Decimal.{decimal-to_text}
use fips_shield.Std.Utf8.{as_bytes, IsAscii, as_bytes-ascii}
use fips_shield.Ui.Http.{Response, reason, response_bytes}
use fips_shield.Ui.Http.Client.{
  content_length, read_response, is_plain, is_plain-append, is_plain-digits, AreLines, joined,
  read_head-joined, joined-IsAscii,
}

is_plain-reason : (status : ℕ) → is_plain (reason status) ≡ true
unfolding reason is_plain
is_plain-reason status = ground arith

abbrev pub status_line : Response → Text
status_line resp = codes "HTTP/1.1 " ++ (to_text resp.status ++ (b' ' ∷ reason resp.status))

abbrev field : Text → Text → Text
field name value = name ++ (codes ": " ++ value)

abbrev pub header_lines : Response → List Text
header_lines resp =
    field (codes "Content-Type") resp.content_type
    ∷ field (codes "Content-Length") (to_text (length (as_bytes resp.body)))
    ∷ field (codes "Connection") (codes "close")
    ∷ field (codes "Cache-Control") (codes "no-store")
    ∷ field (codes "X-Content-Type-Options") (codes "nosniff")
    ∷ field (codes "X-Frame-Options") (codes "DENY")
    ∷ field (codes "Referrer-Policy") (codes "no-referrer")
    ∷ field (codes "Content-Security-Policy") (
        codes
          "default-src 'none'; style-src 'unsafe-inline'; script-src 'unsafe-inline'; connect-src 'self'")
    ∷ []

response_bytes-joined :
    (resp : Response)
    → response_bytes resp
      ≡ as_bytes (joined (status_line resp ∷ header_lines resp) ++ (b'\r' ∷ b'\n' ∷ []))
        ++ as_bytes resp.body
unfolding response_bytes joined
response_bytes-joined resp = simp append_assoc refl

is_plain-field :
    (name value : Text)
    → is_plain name ≡ true
    → is_plain value ≡ true
    → is_plain (field name value) ≡ true
is_plain-field name value h k =
    is_plain-append name (codes ": " ++ value) h
      (is_plain-append (codes ": ") value (unfold is_plain in refl) k)

is_plain-status_line : (resp : Response) → is_plain (status_line resp) ≡ true
is_plain-status_line resp =
    is_plain-append (codes "HTTP/1.1 ") (to_text resp.status ++ (b' ' ∷ reason resp.status))
      (unfold is_plain in refl)
      (is_plain-append (to_text resp.status) (b' ' ∷ reason resp.status)
        (is_plain-digits (to_text resp.status) (to_text-IsDigit resp.status))
        (is_plain-append (b' ' ∷ []) (reason resp.status) (unfold is_plain in refl)
          (is_plain-reason resp.status)))

lines_of_head :
    (resp : Response)
    → is_plain resp.content_type ≡ true
    → AreLines (status_line resp ∷ header_lines resp)
unfolding is_plain
lines_of_head resp h =
    let len = to_text (length (as_bytes resp.body)) in
    (
      is_plain-status_line resp,
      (
        is_plain-field (codes "Content-Type") resp.content_type refl h,
        (
          is_plain-field (codes "Content-Length") len refl
              (is_plain-digits len (to_text-IsDigit (length (as_bytes resp.body)))),
          (refl, (refl, (refl, (refl, (refl, (refl, tt)))))),
        ),
      ),
    )

content_length-header_lines :
    (resp : Response) → content_length (header_lines resp) ≡ some (length (as_bytes resp.body))
unfolding content_length strip_prefix
content_length-header_lines resp = ap some (decimal-to_text (length (as_bytes resp.body)))

-- A client that reads lines up to the first empty one and then as many bytes as `Content-Length`
-- says gets the status line, the eight headers and exactly the body, whatever the status and the
-- body are, if the content type is printable ASCII.
pub read_response-response_bytes :
    (resp : Response)
    → is_plain resp.content_type ≡ true
    → read_response 10 (response_bytes resp)
      ≡ some (status_line resp, header_lines resp, as_bytes resp.body)
unfolding read_response
read_response-response_bytes resp h =
    let ls = status_line resp ∷ header_lines resp in
    let ascii =
      All-append IsAscii (joined ls) (b'\r' ∷ b'\n' ∷ []) (joined-IsAscii ls (lines_of_head resp h))
        (omega arith, (omega arith, tt)) in
    let sent : response_bytes resp ≡ joined ls ++ (b'\r' ∷ b'\n' ∷ as_bytes resp.body) =
      response_bytes-joined resp
      ∙ ap (λ t. t ++ as_bytes resp.body) (as_bytes-ascii (joined ls ++ (b'\r' ∷ b'\n' ∷ [])) ascii)
      ∙ append_assoc (joined ls) (b'\r' ∷ b'\n' ∷ []) (as_bytes resp.body) in
    let same : (length (as_bytes resp.body) == length (as_bytes resp.body)) ≡ true = ground arith in
    ap (read_response 10) sent
    ∙ rw
        (
          read_response,
          read_head-joined ls 10 (as_bytes resp.body) (lines_of_head resp h) (omega arith),
          content_length-header_lines resp,
          same,
        )
        refl
