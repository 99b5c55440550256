-- ===== src/Ui/Http/Lines.antt =====
-- Reading lines as `read_request` of ui/src/http.rs does, when a client ends them with CR and LF.
use fips_shield.Base.{
  ℕ, zero, suc, ◌+◌, ◌<◌, ◌≤◌, ◌≡◌, refl, true, false, none, some, List, [], ◌∷◌, ◌++◌, ◌==◌,
  length, length-append, All, All-append, append_assoc, arith, ◌∙◌, ap,
}
use fips_shield.Std.Text.{Text, text_eq}
use fips_shield.Std.Utf8.{IsAscii, from_utf8-ascii}
use fips_shield.Ui.Http.{
  Stream, take_line, read_line, drain, ends_headers, max_request_line, max_header_bytes,
}
use fips_shield.Ui.Http.Client.{is_plain, is_plain-IsAscii, is_line, AreLines, joined}

-- A line with its end.
abbrev pub ended : Text → Text
ended l = l ++ (b'\r' ∷ b'\n' ∷ [])

-- What the peer sends after some of it.
abbrev pub sends : Text → Stream → Stream
sends t s = record { bytes = t ++ s.bytes; fails = s.fails }

take_line-ended :
    (n : ℕ) (l rest : Text)
    → is_plain l ≡ true
    → length l + 2 ≤ n
    → take_line n (l ++ (b'\r' ∷ b'\n' ∷ rest)) ≡ (ended l, rest, false)
unfolding take_line is_plain
take_line-ended zero l rest h k = absurd (omega arith)
take_line-ended (suc zero) [] rest h k = absurd (omega arith)
take_line-ended (suc (suc n)) [] rest h k = refl
take_line-ended (suc n) (c ∷ l) rest h k =
    let e : (c == b'\n') ≡ false = ground arith in
    rw (take_line, take_line-ended n l rest (ground arith) (omega arith), e) refl

ended-IsAscii : (l : Text) → is_plain l ≡ true → All IsAscii (ended l)
ended-IsAscii l h =
    All-append IsAscii l (b'\r' ∷ b'\n' ∷ []) (is_plain-IsAscii l h)
      (omega arith, (omega arith, tt))

pub read_line-ended :
    (limit : ℕ) (l : Text) (s : Stream)
    → is_plain l ≡ true
    → length l + 2 ≤ limit
    → read_line limit (sends (ended l) s) ≡ (some (length (ended l), ended l), s)
unfolding read_line
read_line-ended limit l s h k =
    ap (λ t. read_line limit (record { bytes = t; fails = s.fails }))
      (append_assoc l (b'\r' ∷ b'\n' ∷ []) s.bytes)
    ∙ ground
        (arith, take_line-ended limit l s.bytes h k, from_utf8-ascii (ended l) (ended-IsAscii l h))

-- The lines of a head that are short enough for `read_line`.
abbrev pub AreShort : List Text → Type 0
AreShort ls = All (λ l. length l + 2 ≤ max_request_line) ls

ends_headers-line :
    (l : Text) → is_line l ≡ true → ends_headers (length (ended l)) (ended l) ≡ false
unfolding ends_headers is_plain text_eq
ends_headers-line [] h = absurd (ground arith)
ends_headers-line (c ∷ l) h = ground arith

drain_last : (left total : ℕ) (s : Stream) → drain (suc left) total (sends (ended []) s) ≡ (none, s)
unfolding drain
drain_last left total s =
    ground (arith, read_line-ended max_request_line [] s (unfold is_plain in refl) (omega arith))

is_line-is_plain : (l : Text) → is_line l ≡ true → is_plain l ≡ true
is_line-is_plain [] h = absurd (ground arith)
is_line-is_plain (c ∷ l) h = h

drain_line :
    (l : Text) (left total : ℕ) (s : Stream)
    → is_line l ≡ true
    → length l + 2 ≤ max_request_line
    → total + length (ended l) ≤ max_header_bytes
    → drain (suc left) total (sends (ended l) s) ≡ drain left (total + length (ended l)) s
unfolding drain
drain_line l left total s h k b =
    ground
      (arith, read_line-ended max_request_line l s (is_line-is_plain l h) k, ends_headers-line l h)

sends-joined :
    (l : Text) (ls : List Text) (s : Stream)
    → sends (ended (joined (l ∷ ls))) s ≡ sends (ended l) (sends (ended (joined ls)) s)
unfolding joined
sends-joined l ls s = simp append_assoc refl

length-joined :
    (l : Text) (ls : List Text) → length (joined (l ∷ ls)) ≡ length (ended l) + length (joined ls)
unfolding joined
length-joined l ls = simp length-append (omega arith)

pub drain-joined :
    (ls : List Text) (left total : ℕ) (s : Stream)
    → AreLines ls
    → AreShort ls
    → length ls < left
    → total + length (joined ls) ≤ max_header_bytes
    → drain left total (sends (ended (joined ls)) s) ≡ (none, s)
drain-joined ls zero total s h k n b = absurd (omega arith)
drain-joined [] (suc left) total s h k n b = unfold joined in drain_last left total s
drain-joined (l ∷ ls) (suc left) total s (h, hs) (k, ks) n b =
    let parts = length-joined l ls in
    ap (drain (suc left) total) (sends-joined l ls s)
    ∙ drain_line l left total (sends (ended (joined ls)) s) h k (omega arith)
    ∙ drain-joined ls left (total + length (ended l)) s hs ks (omega arith) (omega arith)
