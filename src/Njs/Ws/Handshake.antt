-- ===== src/Njs/Ws/Handshake.antt =====
-- The handshake in core/njs/shield_ws.js: what is sent before the header block is complete, and the
-- search for its end, which skips what earlier reads have scanned.
use fips_shield.Base.{◌<◌, ◌⊎◌, take, ℕ, ◌+◌, ◌≡◌, true, false, [], ◌∷◌, ◌++◌, length, drop}
use fips_shield.Std.Text.{Text}
use fips_shield.Std.Utf8.{Bytes, as_bytes, from_utf8_lossy}
use fips_shield.Njs.Runtime.{Runtime}
use fips_shield.Njs.Session.{ws, plain, Cfg, State, sent, farewell, max_handshake}
use fips_shield.Njs.Frames.{pump}
use fips_shield.Njs.Frames.Relay.{upstream}
use fips_shield.Njs.Ws.HeaderBlock.{EndsAt, IsFirstEnd, HasBareLf}
use fips_shield.Njs.Ws.{is_upgrade}

-- No end of a header block stands in the bytes so far, and all of them were searched.
abbrev pub IsSearched : State → Type 0
IsSearched st = (st.hs_scanned ≡ length st.hs) × ((n : ℕ) → ¬ EndsAt st.hs n)

-- A session is over, and sent its farewell.
abbrev Refused : State → State → Type 0
Refused st r =
    (r.killed ≡ true)
    × (rule : Text) × (detail : Text) × (r.out ≡ st.out ++ farewell sent rule detail)

module _ (R : Runtime) (cfg : Cfg) where
  -- What is sent once the header block is there: the block, read as UTF-8, and what follows it, which
  -- `pump` looks at if the block asks for a WebSocket.
  abbrev Forwards : Bytes → ℕ → State → State → Type 0
  Forwards hs end st r =
      let block = from_utf8_lossy (take end hs) in
      ((is_upgrade block ≡ true)
        × (s : State) × (s.out ≡ st.out ++ (sent (as_bytes block) ∷ []))
        × (s.mode ≡ ws)
        × (s.acc ≡ drop end hs)
        × (r ≡ pump R cfg s))
      ⊎ ((is_upgrade block ≡ false)
          × (r.mode ≡ plain)
          × (upstream r.out ≡ upstream st.out ++ (as_bytes block ++ drop end hs)))

  -- What a segment of a handshake comes to: too many reads or bytes; or no empty line so far, and then
  -- nothing is sent; or the first empty line, and then either a farewell, if an LF up to there is
  -- bare, or what is sent for a header block, if none is.
  pub data Validated (d : Bytes) (st r : State) : Type 0 where
    drips : cfg.max_hs_reads < st.hs_reads + 1 → Refused st r → Validated d st r
    oversized : max_handshake < length (st.hs ++ d) → Refused st r → Validated d st r
    goes_on : r.out ≡ st.out → r.hs ≡ st.hs ++ d → IsSearched r → Validated d st r
    bare :
        (end : ℕ)
        → IsFirstEnd (st.hs ++ d) end
        → HasBareLf (take end (st.hs ++ d))
        → Refused st r
        → Validated d st r
    complete :
        (end : ℕ)
        → IsFirstEnd (st.hs ++ d) end
        → ¬ HasBareLf (take end (st.hs ++ d))
        → Forwards (st.hs ++ d) end st r
        → Validated d st r
