-- ===== src/Njs/Ws/Reads.antt =====
-- How the bytes of a client are cut into reads makes no difference to what a session of
-- core/njs/shield_ws.js sends.
use fips_shield.Base.{
  ℕ, suc, ◌+◌, ◌≤◌, ◌<◌, ◌≡◌, sym, ap, ◌∙◌, subst, true, false, List, [], ◌∷◌, ◌++◌, arith, length,
  append-nil, append_assoc, inl, inr, ◌⊎◌,
}
use fips_shield.Std.Utf8.{Bytes}
use fips_shield.Njs.Runtime.{Runtime}
use fips_shield.Njs.Session.{Cfg, State, Out, ws, concat}
use fips_shield.Njs.Frames.{pump}
use fips_shield.Njs.Frames.Extend.{tweak}
use fips_shield.Njs.Frames.Restart.{out_of}
use fips_shield.Njs.Frames.Waiting.{Waits, pump-Rested}
use fips_shield.Njs.Ws.Sessions.{Event, from_client}

-- The segments that are held apart are joined to the bytes at hand.
abbrev pub merged : State → State
merged st = record st { acc = st.acc ++ concat st.chunks; chunks = []; pending_len = 0 }

abbrev pub read : Bytes → Event
read d = from_client d false

pub concat-snoc : (cs : List Bytes) (d : Bytes) → concat (cs ++ (d ∷ [])) ≡ concat cs ++ d
concat-snoc [] d = append-nil d
concat-snoc (c ∷ cs) d = ap (λ t. c ++ t) (concat-snoc cs d) ∙ sym (append_assoc c (concat cs) d)

pub merged-clear : (st : State) → st.chunks ≡ [] → st.pending_len ≡ 0 → merged st ≡ st
merged-clear st c p = ground (arith, append-nil st.acc)

-- A segment that is not empty.
abbrev pub IsRead : Bytes → Type 0
IsRead d = 0 < length d

module _ (R : Runtime) (cfg : Cfg) where
  -- A session that reads frames, and has looked at all that arrived.
  pub record IsListening (st : State) : Type 0 where
    pub reads : st.mode ≡ ws
    pub counts : st.pending_len ≡ length (concat st.chunks)
    pub looked : (st.killed ≡ true) ⊎ Waits R cfg (merged st)

  pub pump-IsListening :
      (st : State)
      → st.mode ≡ ws
      → st.chunks ≡ []
      → st.pending_len ≡ 0
      → IsListening (pump R cfg st)
  pump-IsListening st m c p =
      let (v, rest) = pump-Rested R cfg (suc (length st.acc)) st (omega arith) c p in
      record {
        reads = v.mode_eq ∙ m;
        counts = v.pending_eq ∙ ap (λ cs. length (concat cs)) (sym v.chunks_eq);
        looked = elim rest [
          | inl k ↦ inl k
          | inr w ↦
              inr (
                subst (Waits R cfg) (sym (merged-clear (pump R cfg st) v.chunks_eq v.pending_eq)) w)
        ];
      }

  -- What is sent once more bytes arrive behind all that did.
  abbrev with_more : Bytes → ℕ → ℕ → State → List Out
  with_more e n m st = out_of R cfg (tweak ((merged st).acc ++ e) n m (merged st))

  -- The state after a segment that completes nothing, and after one that may.
  abbrev stored : Bytes → State → State
  stored d st = record st {
    msg_reads = st.msg_reads + 1;
    chunks = st.chunks ++ (d ∷ []);
    pending_len = st.pending_len + length d;
  }

  -- A read, as one that is taken to the bytes at hand at once.
  record Reads (d : Bytes) (st st' : State) : Type 0 where
    listens : IsListening st'
    once : st'.msg_reads ≤ st.msg_reads + 1
    joins : (e : Bytes) → with_more e 0 0 st' ≡ with_more (d ++ e) 0 0 st
