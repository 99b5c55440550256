-- ===== src/Njs/Frames/Prefix.antt =====
-- What `peek` says of the front of the bytes at hand does not change when more bytes arrive.
use fips_shield.Base.{
  length-drop, ℕ, ◌≤◌, ◌<◌, ◌≡◌, [], ◌∷◌, ◌++◌, arith, length, length-append, drop, take-append,
  drop-append,
}
use fips_shield.Std.Text.{Text}
use fips_shield.Std.Utf8.{Bytes}
use fips_shield.Njs.Frames.{Head, wait, refused, head, peek}

-- More is needed only if the bytes at hand are too few.
pub peek-wait : (b : Bytes) (n : ℕ) → peek b ≡ wait n → length b < n
unfolding peek
peek-wait [] n h = ground arith
peek-wait (b0 ∷ []) n h = ground arith
peek-wait (b0 ∷ b1 ∷ []) n h = ground arith
peek-wait (b0 ∷ b1 ∷ b2 ∷ []) n h = ground arith
peek-wait (b0 ∷ b1 ∷ b2 ∷ b3 ∷ r) n h = ground arith

-- The length of a frame is known from its first ten bytes.
pub peek-wait_le : (b : Bytes) (n : ℕ) → peek b ≡ wait n → n ≤ 10
unfolding peek
peek-wait_le [] n h = ground arith
peek-wait_le (b0 ∷ []) n h = ground arith
peek-wait_le (b0 ∷ b1 ∷ []) n h = ground arith
peek-wait_le (b0 ∷ b1 ∷ b2 ∷ []) n h = ground arith
peek-wait_le (b0 ∷ b1 ∷ b2 ∷ b3 ∷ r) n h = ground arith

-- The masking key stands behind two to ten bytes.
pub peek-off : (b : Bytes) (h : Head) → peek b ≡ head h → (2 ≤ h.off) × (h.off ≤ 10)
unfolding peek
peek-off [] h e = ground arith
peek-off (b0 ∷ []) h e = ground arith
peek-off (b0 ∷ b1 ∷ []) h e = ground arith
peek-off (b0 ∷ b1 ∷ b2 ∷ []) h e = ground arith
peek-off (b0 ∷ b1 ∷ b2 ∷ b3 ∷ r) h e = ground arith

pub peek-head : (b d : Bytes) (h : Head) → peek b ≡ head h → peek (b ++ d) ≡ head h
unfolding peek
peek-head [] d h e = ground arith
peek-head (b0 ∷ []) d h e = ground arith
peek-head (b0 ∷ b1 ∷ []) d h e = ground arith
peek-head (b0 ∷ b1 ∷ b2 ∷ []) d h e = ground arith
peek-head (b0 ∷ b1 ∷ b2 ∷ b3 ∷ r) d h e = ground (
  arith,
  length-append r d,
  take-append 2 r d,
  drop-append 2 r d,
  take-append 4 (drop 2 r) d,
  length-drop 2 r,
)

-- The head of a frame says the same as soon as it is there.
pub peek-head_before :
    (b d : Bytes) (h : Head) → peek (b ++ d) ≡ head h → h.off ≤ length b → peek b ≡ head h
unfolding peek
peek-head_before [] d h e k = absurd (omega (arith, (peek-off d h e).0))
peek-head_before (b0 ∷ []) d h e k = absurd (omega (arith, (peek-off (b0 ∷ d) h e).0))
peek-head_before (b0 ∷ b1 ∷ []) d h e k = ground arith
peek-head_before (b0 ∷ b1 ∷ b2 ∷ []) d h e k = ground arith
peek-head_before (b0 ∷ b1 ∷ b2 ∷ b3 ∷ r) d h e k = ground (
  arith,
  length-append r d,
  take-append 2 r d,
  drop-append 2 r d,
  take-append 4 (drop 2 r) d,
  length-drop 2 r,
)

pub peek-refused :
    (b d : Bytes) (rule detail : Text)
    → peek b ≡ refused rule detail
    → peek (b ++ d) ≡ refused rule detail
unfolding peek
peek-refused [] d rule detail e = ground arith
peek-refused (b0 ∷ []) d rule detail e = ground arith
peek-refused (b0 ∷ b1 ∷ []) d rule detail e = ground arith
peek-refused (b0 ∷ b1 ∷ b2 ∷ []) d rule detail e = ground arith
peek-refused (b0 ∷ b1 ∷ b2 ∷ b3 ∷ r) d rule detail e =
    ground (arith, length-append r d, take-append 2 r d)

pub peek-wait_append :
    (b d : Bytes) (n : ℕ) → peek b ≡ wait n → length (b ++ d) < n → peek (b ++ d) ≡ wait n
unfolding peek
peek-wait_append [] [] n e h = e
peek-wait_append [] (d0 ∷ []) n e h = ground arith
peek-wait_append [] (d0 ∷ d1 ∷ d) n e h = ground arith
peek-wait_append (b0 ∷ []) [] n e h = e
peek-wait_append (b0 ∷ []) (d0 ∷ d) n e h = ground arith
peek-wait_append (b0 ∷ b1 ∷ []) [] n e h = e
peek-wait_append (b0 ∷ b1 ∷ []) (d0 ∷ []) n e h = ground arith
peek-wait_append (b0 ∷ b1 ∷ []) (d0 ∷ d1 ∷ d) n e h = ground arith
peek-wait_append (b0 ∷ b1 ∷ b2 ∷ []) [] n e h = e
peek-wait_append (b0 ∷ b1 ∷ b2 ∷ []) (d0 ∷ d) n e h = ground arith
peek-wait_append (b0 ∷ b1 ∷ b2 ∷ b3 ∷ r) d n e h = ground (arith, length-append r d)
