-- ===== src/Ui/Http/Bounds.antt =====
-- How much of a connection `read_request` of ui/src/http.rs takes, and what it accepts.
use fips_shield.Base.{
  List, All, leb, ap, Bool-cases, ℕ, zero, suc, ◌+◌, ◌-◌, ◌≤◌, ◌≡◌, some, [], ◌∷◌, arith, inl, inr,
  length, Option-cases, ok,
}
use fips_shield.Std.Text.{Text, codes, text_eq→eq}
use fips_shield.Std.Utf8.{Bytes, from_utf8}
use fips_shield.Ui.Http.{
  buffer_size, fetched, Stream, Request, take_line, read_line, drain, read_rest, read_request,
  request_parts, request_of, max_request_line, max_header_bytes, max_headers,
}

length-take_line :
    (n : ℕ) (s : Bytes)
    → (length (take_line n s).0 ≤ n)
      × (length (take_line n s).0 + length (take_line n s).1 ≡ length s)
unfolding take_line
length-take_line zero s = omega arith
length-take_line (suc n) [] = omega arith
length-take_line (suc n) (c ∷ s) = ground (arith, length-take_line n s)

-- The bytes that a step takes from a stream.
abbrev TakesAtMost : ℕ → Stream → Stream → Type 0
TakesAtMost n s s' = length s.bytes ≤ length s'.bytes + n

read_line-takes : (limit : ℕ) (s : Stream) → TakesAtMost limit s (read_line limit s).1
unfolding read_line
read_line-takes limit s = ground (arith, length-take_line limit s.bytes)

-- A line that is read is as long as the bytes it takes.
read_line-exact :
    (limit n : ℕ) (t : Text) (s : Stream)
    → (read_line limit s).0 ≡ some (n, t)
    → (n ≤ limit) × (length s.bytes ≡ length (read_line limit s).1.bytes + n)
unfolding read_line
read_line-exact limit n t s h = elim (Option-cases (from_utf8 (take_line limit s.bytes).0)) [
  | inl e ↦ absurd (ground arith)
  | inr (u, e) ↦ ground (arith, length-take_line limit s.bytes)
]

drain-takes :
    (left total : ℕ) (s : Stream)
    → total ≤ max_header_bytes
    → TakesAtMost (max_header_bytes - total + max_request_line) s (drain left total s).1
unfolding drain
drain-takes zero total s h = omega arith
drain-takes (suc left) total s h = elim (Option-cases (read_line max_request_line s).0) [
  | inl e ↦ ground (arith, read_line-takes max_request_line s)
  | inr ((n, t), e) ↦ ground (
    arith,
    read_line-exact max_request_line n t s e,
    drain-takes left (total + n) (read_line max_request_line s).1,
  )
]

read_rest-takes :
    (line : Text) (s : Stream)
    → TakesAtMost (max_header_bytes + max_request_line) s (read_rest line s).1
unfolding read_rest
read_rest-takes line s = ground (arith, drain-takes max_headers 0 s (omega arith))

-- Whatever a peer sends, and whatever the answer, at most 48 KiB of it are taken from the reader: a
-- request line, the header bytes allowed, and the header that exceeds them.
taken_le :
    (s : Stream)
    → length s.bytes
      ≤ length (read_request s).1.bytes + (max_request_line + max_header_bytes + max_request_line)
unfolding read_request
taken_le s = elim (Option-cases (read_line max_request_line s).0) [
  | inl e ↦ ground (arith, read_line-takes max_request_line s)
  | inr ((n, t), e) ↦ ground (
    arith,
    read_line-exact max_request_line n t s e,
    read_rest-takes t (read_line max_request_line s).1,
  )
]

-- The reader is ahead by less than a buffer.
fetched-le :
    (n : ℕ) (reads : List ℕ) → All (λ r. r ≤ buffer_size) reads → fetched n reads ≤ n + buffer_size
unfolding fetched
fetched-le zero reads h = omega arith
fetched-le (suc n) [] h = omega arith
fetched-le (suc n) (read ∷ reads) (h, hs) =
    let rest = suc n - read in
    elim (Bool-cases (leb read (suc n))) [
      | inl e ↦ ground (arith, fetched-le rest reads hs)
      | inr e ↦
          let none_left : rest ≡ 0 = ground arith in
          omega (arith, h, ap (λ m. fetched m reads) none_left)
    ]

-- Whatever a peer sends, whatever the answer, and however much of a buffer of 8 KiB each read of the
-- socket fills, at most 56 KiB are read from the socket: 48 KiB that a request may have with the
-- header that exceeds the limits, and what the reader is ahead.
pub read_request-takes :
    (s : Stream) (reads : List ℕ)
    → All (λ r. r ≤ buffer_size) reads
    → fetched (length s.bytes - length (read_request s).1.bytes) reads
      ≤ max_request_line + max_header_bytes + max_request_line + buffer_size
read_request-takes s reads h =
    omega (arith, taken_le s, fetched-le (length s.bytes - length (read_request s).1.bytes) reads h)

-- A request is accepted only if its line is read in full and names the method GET, and it then is
-- what the line's target says.
pub read_request-get :
    (s : Stream) (r : Request)
    → (read_request s).0 ≡ ok r
    → (n : ℕ) × (line : Text) × ((read_line max_request_line s).0 ≡ some (n, line))
      × ((request_parts line).0 ≡ codes "GET")
      × (r ≡ request_of (request_parts line).1)
unfolding read_request read_rest
read_request-get s r h = elim (Option-cases (read_line max_request_line s).0) [
  | inl e ↦ absurd (ground arith)
  | inr ((n, t), e) ↦
      (n, t, e, text_eq→eq (request_parts t).0 (codes "GET") (ground arith), ground arith)
]
