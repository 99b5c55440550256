-- ===== src/Ui/Http.antt =====
-- The HTTP server, ui/src/http.rs. A connection is the bytes that the peer sends, and what comes
-- after them: the end of the stream, or an error such as the read timeout. `read_request` takes
-- them from a BufReader, so a stream here is what that reader still has to give; what the reader
-- has fetched from the socket for it is `fetched`.
pub mod Decode
pub mod Bounds
pub mod Client
pub mod Framing
pub mod Lines
pub mod Accepting
pub mod Asking
pub mod Exchange
use fips_shield.Base.{
  ℕ, zero, suc, ◌+◌, ◌-◌, ◌*◌, ◌≡◌, refl, Bool, true, false, not, ◌&&◌, ◌||◌, Option, none, some,
  List, [], ◌∷◌, ◌++◌, ltb, leb, ◌==◌, if◌then◌else◌, length, find, keep, map, Result, ok, err,
}
use fips_shield.Std.Text.{Text, codes, text_eq, split, split_once, trim_end, ends_with}
use fips_shield.Std.Number.{to_text, from_str_radix, u8_max}
use fips_shield.Std.Utf8.{Bytes, as_bytes, from_utf8, from_utf8_lossy}
use fips_shield.Ui.Json

abbrev pub max_request_line : ℕ
max_request_line = 8 * 1024

abbrev pub max_header_bytes : ℕ
max_header_bytes = 32 * 1024

abbrev pub max_headers : ℕ
max_headers = 100

pub record Request : Type 0 where
  pub path : Text
  pub query : List (Text × Text)

-- `Request::param`
unfoldable pub param : Text → Request → Option Text
param key r = elim (find (λ kv. text_eq kv.0 key) r.query) [ none ↦ none | some kv ↦ some kv.1 ]

pub record Response : Type 0 where
  pub status : ℕ
  pub content_type : Text
  pub body : Text

abbrev pub json : Text → Response
json body = record {
  status = 200;
  content_type = codes "application/json; charset=utf-8";
  body = body;
}

abbrev pub html : Text → Response
html body = record { status = 200; content_type = codes "text/html; charset=utf-8"; body = body }

unfoldable pub error : ℕ → Text → Response
unfolding Json.str Json.done
error status msg = record {
  status = status;
  content_type = codes "application/json; charset=utf-8";
  body = Json.done (Json.str (codes "error") msg Json.new_obj);
}

unfoldable pub reason : ℕ → Text
reason status =
    if status == 200
    then codes "OK"
    else if status == 400
    then codes "Bad Request"
    else if status == 404
    then codes "Not Found"
    else if status == 405
    then codes "Method Not Allowed"
    else if status == 413
    then codes "Payload Too Large"
    else if status == 500
    then codes "Internal Server Error"
    else codes "Unknown"

-- `u8::from_str_radix(h, 16)` of two bytes, if they are UTF-8.
unfoldable pub hex_byte : ℕ → ℕ → Option ℕ
unfolding from_utf8 from_str_radix
hex_byte d e = elim (from_utf8 (d ∷ e ∷ [])) [ none ↦ none | some h ↦ from_str_radix 16 u8_max h ]

-- The loop of `percent_decode`, by the bytes that are left: an escape needs two more.
unfoldable pub decode_bytes : Bytes → Bytes
decode_bytes [] = []
decode_bytes (c ∷ []) = (if c == b'+' then b' ' else c) ∷ []
decode_bytes (c ∷ d ∷ []) = (if c == b'+' then b' ' else c) ∷ decode_bytes (d ∷ [])
decode_bytes (c ∷ d ∷ e ∷ r) =
    let next = decode_bytes (d ∷ e ∷ r) in
    let after = decode_bytes r in
    if c == b'+'
    then b' ' ∷ next
    else if c == b'%'
    then elim (hex_byte d e) [ none ↦ c ∷ next | some v ↦ v ∷ after ]
    else c ∷ next

unfoldable pub percent_decode : Text → Text
unfolding decode_bytes as_bytes from_utf8_lossy
percent_decode s = from_utf8_lossy (decode_bytes (as_bytes s))

is_empty : Text → Bool
is_empty [] = true
is_empty (c ∷ s) = false

parse_pair : Text → Text × Text
unfolding split_once percent_decode
parse_pair p = elim (split_once b'=' p) [
  | some (k, v) ↦ (percent_decode k, percent_decode v)
  | none ↦ (percent_decode p, [])
]

unfoldable pub parse_query : Text → List (Text × Text)
unfolding parse_pair split is_empty
parse_query q = map parse_pair (keep (λ p. not (is_empty p)) (split b'&' q))

pub record Stream : Type 0 where
  pub bytes : Bytes
  -- a read past the bytes fails, rather than finding the end
  pub fails : Bool

-- The capacity of `BufReader::new`
abbrev pub buffer_size : ℕ
buffer_size = 8 * 1024

-- What `BufReader::new(stream)` has fetched from the socket once so many bytes were taken from it,
-- given how many bytes each read of the socket yields: it reads when its buffer is empty and bytes
-- are wanted.
unfoldable pub fetched : ℕ → List ℕ → ℕ
fetched zero reads = 0
fetched (suc n) [] = 0
fetched (suc n) (read ∷ reads) = read + fetched (suc n - read) reads

-- The bytes of a line, at most so many, those after it, and whether the stream ran out first.
unfoldable pub take_line : ℕ → Bytes → Bytes × Bytes × Bool
take_line zero s = ([], s, false)
take_line (suc n) [] = ([], [], true)
take_line (suc n) (c ∷ s) =
    let (l, r, out) = take_line n s in if c == b'\n' then (c ∷ [], s, false) else (c ∷ l, r, out)

-- `(&mut r).take(limit).read_line(&mut line)`: the number of bytes and the line, unless a read
-- fails or the bytes are not UTF-8.
unfoldable pub read_line : ℕ → Stream → Option (ℕ × Text) × Stream
unfolding take_line
read_line limit s =
    let (l, r, out) = take_line limit s.bytes in
    (
      if out && s.fails
          then none
          else elim (from_utf8 l) [ none ↦ none | some t ↦ some (length l, t) ],
      record s { bytes = r },
    )

ends_headers : ℕ → Text → Bool
unfolding text_eq
ends_headers n h = n == 0 || text_eq h (codes "\r\n") || text_eq h (codes "\n")

-- The header loop, with the number of headers that may still come and the bytes so far.
unfoldable pub drain : ℕ → ℕ → Stream → Option Response × Stream
unfolding ends_headers
drain zero total s = (some (error 413 (codes "too many headers")), s)
drain (suc left) total s =
    let (line, s') = read_line max_request_line s in
    elim line [
      | none ↦ (some (error 400 (codes "unreadable headers")), s')
      | some (n, h) ↦ elim (ends_headers n h) [
        | true ↦ (none, s')
        | false ↦ elim (ltb max_header_bytes (total + n)) [
          | true ↦ (some (error 413 (codes "headers too large")), s')
          | false ↦ drain left (total + n) s'
        ]
      ]
    ]

-- The method and the target of a request line.
unfoldable pub request_parts : Text → Text × Text
unfolding split trim_end
request_parts line = elim (split b' ' (trim_end line)) [
  | [] ↦ ([], [])
  | method ∷ rest ↦ elim rest [ [] ↦ (method, []) | target ∷ more ↦ (method, target) ]
]

unfoldable pub request_of : Text → Request
unfolding split_once percent_decode parse_query
request_of target = elim (split_once b'?' target) [
  | some (p, q) ↦ record { path = percent_decode p; query = parse_query q }
  | none ↦ record { path = percent_decode target; query = [] }
]

-- What `read_request` does once it has the request line.
unfoldable pub read_rest : Text → Stream → Result Response Request × Stream
read_rest line s =
    let (method, target) = request_parts line in
    if not (text_eq method (codes "GET"))
    then (err (error 405 (codes "only GET is served")), s)
    else (let (refused, s') = drain max_headers 0 s in
        elim refused [ some e ↦ (err e, s') | none ↦ (ok (request_of target), s') ])

unfoldable pub read_request : Stream → Result Response Request × Stream
read_request s =
    let (line, s') = read_line max_request_line s in
    elim line [
      | none ↦ (err (error 400 (codes "unreadable request")), s')
      | some (n, t) ↦
          if n == 0
          then (err (error 400 (codes "empty request")), s')
          else if leb max_request_line n && not (ends_with b'\n' t)
          then (err (error 413 (codes "request line too long")), s')
          else read_rest t s'
    ]

crlf : Text
crlf = b'\r' ∷ b'\n' ∷ []

header : Text → Text → Text
unfolding crlf
header name value = name ++ (codes ": " ++ (value ++ crlf))

-- The bytes that `write_response` sends.
unfoldable pub response_bytes : Response → Bytes
unfolding header reason as_bytes
response_bytes resp =
    as_bytes (
      codes "HTTP/1.1 "
      ++ (to_text resp.status
          ++ (b' '
              ∷ (reason resp.status
                  ++ (crlf
                      ++ (header (codes "Content-Type") resp.content_type
                          ++ (header (codes "Content-Length")
                                (to_text (length (as_bytes resp.body)))
                              ++ (header (codes "Connection") (codes "close")
                                  ++ (header (codes "Cache-Control") (codes "no-store")
                                      ++ (header (codes "X-Content-Type-Options") (codes "nosniff")
                                          ++ (header (codes "X-Frame-Options") (codes "DENY")
                                              ++ (header (codes "Referrer-Policy")
                                                    (codes "no-referrer")
                                                  ++ (header (codes "Content-Security-Policy") (
                                                        codes
                                                          "default-src 'none'; style-src 'unsafe-inline'; script-src 'unsafe-inline'; connect-src 'self'")
                                                      ++ crlf)))))))))))))
    ++ as_bytes resp.body

-- One connection of `serve`: what is sent for what is received.
unfoldable pub serve_connection : (Request → Response) → Stream → Bytes
serve_connection handler s = elim (read_request s).0 [
  | ok req ↦ response_bytes (handler req)
  | err e ↦ response_bytes e
]
