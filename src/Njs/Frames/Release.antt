-- ===== src/Njs/Frames/Release.antt =====
-- A data frame of a client is sent on only with a message that was inspected as a whole.
use fips_shield.Base.{
  ℕ, zero, suc, ◌≤◌, ◌<◌, ◌≡◌, refl, sym, ap, ◌∙◌, subst, Bool, true, false, Option, none, some,
  List, [], ◌∷◌, ◌++◌, arith, length, length-take, take, drop, take-append-drop, append-nil,
  append_assoc, map, ltb, if◌then◌else◌, Bool-cases, inl, inr,
}
use fips_shield.Std.Text.{Text}
use fips_shield.Std.Utf8.{Bytes}
use fips_shield.Njs.Runtime.{Runtime}
use fips_shield.Njs.Session.{
  Cfg, State, Out, Account, sent, concat, violate, farewell, flush, max_pending_frames,
  max_fragments,
}
use fips_shield.Njs.Frames.Progress.{violate-killed, on_frame-shorter}
use fips_shield.Njs.Frames.Extend.{payload_of-append}
use fips_shield.Njs.Frames.Prefix.{peek-head_before}
use fips_shield.Njs.Frames.Steps.{waits, refuses, takes, pump_step-Outcome}
use fips_shield.Njs.Frames.Pump.{pump-killed, pump-stop, pump-again}
use fips_shield.Njs.Frames.Relay.{concat-append}
use fips_shield.Njs.Filters.{Violation}
use fips_shield.Njs.Inspect.{inspect}
use fips_shield.Njs.Frames.{
  Head, Peek, wait, refused, head, peek, is_control, frame_end, payload_of, hold, flush_unless,
  settle, complete, on_data_frame, on_held, on_frame, pump,
}

pub violate-out :
    (rule detail : Text) (st : State)
    → st.killed ≡ false
    → (violate rule detail st).out ≡ st.out ++ farewell sent rule detail
unfolding violate
violate-out rule detail st k = simp k refl

-- The payload of a data frame, by its head.
abbrev payload_at : Peek → Bytes → Bytes
payload_at (head h) raw = if is_control h then [] else payload_of h raw
payload_at (wait n) raw = []
payload_at (refused rule detail) raw = []

-- The payload of a frame that stands in these bytes, if it is a data frame.
abbrev pub payload_in : Bytes → Bytes
payload_in raw = payload_at (peek raw) raw

-- The payloads of all data frames among some frames.
unfoldable pub data_of : List Bytes → Bytes
data_of [] = []
data_of (raw ∷ frames) = payload_in raw ++ data_of frames

-- The frames that are held are those of one message that is not complete, with the control frames
-- between them, and the payloads that are kept for the inspection are the payloads of these frames.
pub record IsGathered (st : State) : Type 0 where
  pub parts_eq : concat st.msg_parts ≡ data_of st.pending
  pub pending_nil : st.in_msg ≡ false → st.pending ≡ []

-- The rest of a session makes no difference.
pub regathered :
    (st s : State)
    → s.msg_parts ≡ st.msg_parts
    → s.pending ≡ st.pending
    → s.in_msg ≡ st.in_msg
    → IsGathered st
    → IsGathered s
regathered st s m p i g = record {
  parts_eq = ap concat m ∙ g.parts_eq ∙ ap data_of (sym p);
  pending_nil = λ e. p ∙ g.pending_nil (sym i ∙ e);
}

data_of-append : (bs cs : List Bytes) → data_of (bs ++ cs) ≡ data_of bs ++ data_of cs
unfolding data_of
data_of-append [] cs = refl
data_of-append (b ∷ bs) cs =
    ap (λ t. payload_in b ++ t) (data_of-append bs cs)
    ∙ sym (append_assoc (payload_in b) (data_of bs) (data_of cs))

data_of-snoc :
    (bs : List Bytes) (raw : Bytes) → data_of (bs ++ (raw ∷ [])) ≡ data_of bs ++ payload_in raw
unfolding data_of
data_of-snoc bs raw =
    data_of-append bs (raw ∷ []) ∙ ap (λ t. data_of bs ++ t) (append-nil (payload_in raw))

concat-snoc : (bs : List Bytes) (b : Bytes) → concat (bs ++ (b ∷ [])) ≡ concat bs ++ b
concat-snoc bs b = concat-append bs (b ∷ []) ∙ ap (λ t. concat bs ++ t) (append-nil b)

-- A frame at the front of the bytes at hand reads the same by itself.
frame_alone :
    (h : Head) (acc : Bytes)
    → peek acc ≡ head h
    → frame_end h ≤ length acc
    → (peek (take (frame_end h) acc) ≡ head h)
      × (payload_of h acc ≡ payload_of h (take (frame_end h) acc))
frame_alone h acc e fits =
    let raw = take (frame_end h) acc in
    let rest = drop (frame_end h) acc in
    let whole = take-append-drop (frame_end h) acc in
    let long : frame_end h ≤ length raw = omega (arith, length-take (frame_end h) acc) in
    (
      peek-head_before raw rest h (ap peek whole ∙ e) (omega (arith, long)),
      ap (payload_of h) (sym whole) ∙ payload_of-append h raw rest long,
    )

payload_in_control :
    (raw : Bytes) (h : Head) → peek raw ≡ head h → is_control h ≡ true → payload_in raw ≡ []
payload_in_control raw h e c = ap (λ p. payload_at p raw) e ∙ rw c refl

payload_in_data :
    (raw : Bytes) (h : Head)
    → peek raw ≡ head h
    → is_control h ≡ false
    → payload_in raw ≡ payload_of h raw
payload_in_data raw h e c = ap (λ p. payload_at p raw) e ∙ rw c refl

module _ (R : Runtime) (cfg : Cfg) where
  -- What is sent on from one output to a later one: control frames by themselves, messages, each with
  -- all its frames, whose payloads together passed the inspection, and farewells.
  pub data Releases (os : List Out) : List Out → Type 0 where
    nothing : Releases os os
    control_frame :
        (ps : List Out) (raw : Bytes) (h : Head)
        → Releases os ps
        → peek raw ≡ head h
        → is_control h ≡ true
        → Releases os (ps ++ (sent raw ∷ []))
    message :
        (ps : List Out) (frames : List Bytes) (a : Account)
        → Releases os ps
        → (inspect R cfg (data_of frames) a).0 ≡ none
        → Releases os (ps ++ map sent frames)
    farewells :
        (ps : List Out) (rule detail : Text)
        → Releases os ps
        → Releases os (ps ++ farewell sent rule detail)

  Releases-trans : (os ps qs : List Out) → Releases os ps → Releases ps qs → Releases os qs
  Releases-trans os ps _ p nothing = p
  Releases-trans os ps _ p (control_frame qs raw h q e c) =
      control_frame qs raw h (Releases-trans os ps qs p q) e c
  Releases-trans os ps _ p (message qs frames a q i) =
      message qs frames a (Releases-trans os ps qs p q) i
  Releases-trans os ps _ p (farewells qs rule detail q) =
      farewells qs rule detail (Releases-trans os ps qs p q)

  -- A session after which frames are held as they should be, or which is over.
  pub data Released (os : List Out) (r : State) : Type 0 where
    goes_on : r.killed ≡ false → IsGathered r → Releases os r.out → Released os r
    is_over : r.killed ≡ true → Releases os r.out → Released os r

  pub Released-IsGathered :
      (os : List Out) (r : State) → r.killed ≡ false → Released os r → IsGathered r
  Released-IsGathered os r k (goes_on k' g q) = g
  Released-IsGathered os r k (is_over k' q) = absurd (ground arith)

  after : (os : List Out) (s r : State) → Releases os s.out → Released s.out r → Released os r
  after os s r q (goes_on k g p) = goes_on k g (Releases-trans os s.out r.out q p)
  after os s r q (is_over k p) = is_over k (Releases-trans os s.out r.out q p)

  violate-Released :
      (os : List Out) (rule detail : Text) (st : State)
      → st.killed ≡ false
      → Releases os st.out
      → Released os (violate rule detail st)
  violate-Released os rule detail st k q =
      is_over (violate-killed rule detail st)
        (subst (Releases os) (sym (violate-out rule detail st k)) (farewells st.out rule detail q))

  -- A message is complete, and its ruling is known.
  settle-Released :
      (os : List Out) (ruling : Option Violation) (st : State) (a : Account)
      → st.killed ≡ false
      → st.msg_parts ≡ []
      → Releases os st.out
      → (inspect R cfg (data_of st.pending) a).0 ≡ ruling
      → Released os (settle ruling st)
  unfolding settle flush data_of
  settle-Released os none st a k p q e =
      goes_on k (record { parts_eq = ap concat p; pending_nil = λ _. refl })
        (message st.out st.pending a q e)
  settle-Released os (some v) st a k p q e = violate-Released os v.0 v.1 st k q

  on_data_frame-Released :
      (os : List Out) (h : Head) (payload : Bytes) (st : State)
      → st.killed ≡ false
      → Releases os st.out
      → concat st.msg_parts ++ payload ≡ data_of st.pending
      → Released os (on_data_frame R cfg h payload st)
  unfolding on_data_frame complete
  on_data_frame-Released os h payload st k q g =
      let gathered : concat (st.msg_parts ++ (payload ∷ [])) ≡ data_of st.pending =
        concat-snoc st.msg_parts payload ∙ g in
      elim (Bool-cases (ltb max_fragments (length (st.msg_parts ++ (payload ∷ []))))) [
        | inl c ↦ rw c (violate-Released os _ _ _ k q)
        | inr c ↦ elim (Bool-cases h.fin) [
          | inl f ↦
              rw (c, f)
                (settle-Released os _ _ st.account k refl q
                  (ap (λ b. (inspect R cfg b st.account).0) (sym gathered)))
          | inr f ↦
              rw (c, f)
                (goes_on k (record { parts_eq = gathered; pending_nil = λ e. ground arith }) q)
        ]
      ]

  flush_unless-Released :
      (os : List Out) (h : Head) (held : Bool) (st : State)
      → st.killed ≡ false
      → IsGathered st
      → st.in_msg ≡ held
      → peek (take (frame_end h) st.acc) ≡ head h
      → is_control h ≡ true
      → Releases os st.out
      → Released os (flush_unless held (hold h st))
  unfolding flush_unless flush hold data_of
  flush_unless-Released os h true st k g i e c q =
      let raw = take (frame_end h) st.acc in
      let added : data_of (st.pending ++ (raw ∷ [])) ≡ data_of st.pending =
        data_of-snoc st.pending raw
        ∙ ap (λ t. data_of st.pending ++ t) (payload_in_control raw h e c)
        ∙ append-nil (data_of st.pending) in
      goes_on k
        (record { parts_eq = g.parts_eq ∙ sym added; pending_nil = λ f. absurd (ground arith) }) q
  flush_unless-Released os h false st k g i e c q =
      let raw = take (frame_end h) st.acc in
      let nil = g.pending_nil i in
      goes_on k (record { parts_eq = g.parts_eq ∙ ap data_of nil; pending_nil = λ _. refl })
        (subst (Releases os) (ap (λ t. st.out ++ map sent (t ++ (raw ∷ []))) (sym nil))
          (control_frame st.out raw h q e c))

  -- One frame at the front of the bytes at hand.
  pub on_frame-Released :
      (os : List Out) (h : Head) (st : State)
      → st.killed ≡ false
      → IsGathered st
      → peek st.acc ≡ head h
      → frame_end h ≤ length st.acc
      → Releases os st.out
      → Released os (on_frame R cfg h st)
  unfolding on_frame on_held hold
  on_frame-Released os h st k g e fits q =
      let raw = take (frame_end h) st.acc in
      let (alone, same) = frame_alone h st.acc e fits in
      elim (Bool-cases (ltb max_pending_frames (length (hold h st).pending))) [
        | inl f ↦ rw f (violate-Released os _ _ (hold h st) k q)
        | inr f ↦ elim (Bool-cases (is_control h)) [
          | inl c ↦ rw (f, c) (flush_unless-Released os h st.in_msg st k g refl alone c q)
          | inr c ↦
              rw (f, c)
                (on_data_frame-Released os h (payload_of h st.acc) (hold h st) k q (
                  ap (λ t. t ++ payload_of h st.acc) g.parts_eq
                  ∙ ap (λ t. data_of st.pending ++ t) (same ∙ sym (payload_in_data raw h alone c))
                  ∙ sym (data_of-snoc st.pending raw)))
        ]
      ]

  pub pump-Released :
      (n : ℕ) (st : State)
      → length st.acc < n
      → st.killed ≡ false
      → IsGathered st
      → Released st.out (pump R cfg st)
  pump-Released zero st h k g = absurd (omega arith)
  pump-Released (suc n) st h k g = elim (pump_step-Outcome R cfg st) [
    | waits m few le s more ↦
        subst (Released st.out) (sym (pump-stop R cfg st _ k s))
          (goes_on k (regathered st (record st { need = m }) refl refl refl g) nothing)
    | refuses rule detail s more ↦
        subst (Released st.out) (sym (pump-stop R cfg st _ k s))
          (violate-Released st.out rule detail st k nothing)
    | takes hd seen two fits c s more ↦
        let f = on_frame R cfg hd st in
        let shorter = on_frame-shorter R cfg hd st two fits in
        subst (Released st.out) (sym (pump-again R cfg st f k s (omega arith)))
          (elim (on_frame-Released st.out hd st k g seen fits nothing) [
            | goes_on k' g' q ↦
                after st.out f (pump R cfg f) q (pump-Released n f (omega arith) k' g')
            | is_over k' q ↦ subst (Released st.out) (sym (pump-killed R cfg f k')) (is_over k' q)
          ])
  ]
