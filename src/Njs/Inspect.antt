-- ===== src/Njs/Inspect.antt =====
-- `inspect` of core/njs/shield_ws.js: the policy on one complete message. Where the source calls
-- `violate` and returns, the result holds the rule and the detail.
pub mod Subs
use fips_shield.Base.{
  ℕ, suc, ◌+◌, ◌-◌, ◌≡◌, Bool, true, false, not, ◌&&◌, ◌||◌, Option, none, some, List, [], ◌∷◌,
  ◌++◌, ltb, leb, ◌==◌, if◌then◌else◌, keep,
}
use fips_shield.Std.Text.{Text, codes, text_eq}
use fips_shield.Std.Number.{to_text}
use fips_shield.Std.Utf8.{Bytes, from_utf8_lossy}
use fips_shield.Njs.Runtime.{
  Runtime, Js, Items, null, bool, num, str, arr, obj, nil, item, js_length,
}
use fips_shield.Njs.Bucket.{take_token}
use fips_shield.Njs.Session.{Cfg, Account}
use fips_shield.Njs.Filters.{Violation, malformed, among, get, check_filters}

-- `msg[i]`, where `none` is `undefined`
abbrev pub Arg : Type 0 → Type 0
Arg N = Option (Js N)

module _ {N : Type 0} where
  abbrev first : Items N → Arg N
  first nil = none
  first (item v vs) = some v

  abbrev rest : Items N → Items N
  rest nil = nil
  rest (item v vs) = vs

  abbrev args : Items N → List (Arg N)
  args nil = []
  args (item v vs) = some v ∷ args vs

  -- A subscription identifier that is accepted.
  unfoldable pub sub_id : Arg N → Option Text
  sub_id none = none
  sub_id (some v) = elim v [
    | str s ↦ if ltb (js_length s) 1 || ltb 64 (js_length s) then none else some s
    | _ ↦ none
  ]

-- The rule that is broken, if any, and the account.
abbrev pub Ruling : Type 0
Ruling = Option Violation × Account

abbrev accept : Account → Ruling
accept a = (none, a)

abbrev refuse : Text → Text → Account → Ruling
refuse rule detail a = (some (rule, detail), a)

-- A token is taken at the next reading of the clock.
module _ (R : Runtime) where
  open R use {Number, print, parse_json, date_now}

  abbrev spend_msg : Account → Bool × Account
  spend_msg a =
      let (paid, b) = take_token (date_now a.ticks) a.b_msg in
      (paid, record a { b_msg = b; ticks = a.ticks + 1 })

  abbrev spend_event : Account → Bool × Account
  spend_event a =
      let (paid, b) = take_token (date_now a.ticks) a.b_event in
      (paid, record a { b_event = b; ticks = a.ticks + 1 })

  abbrev spend_req : Account → Bool × Account
  spend_req a =
      let (paid, b) = take_token (date_now a.ticks) a.b_req in
      (paid, record a { b_req = b; ticks = a.ticks + 1 })

  -- A subscription that is not open yet is opened.
  unfoldable pub open_sub : Cfg → Text → Account → Ruling
  unfolding text_eq
  open_sub cfg sid a =
      if among a.subs sid
      then accept a
      else if leb cfg.max_subs a.sub_count
      then refuse (codes "too-many-subs") (codes "max=" ++ to_text cfg.max_subs) a
      else accept (record a { subs = sid ∷ a.subs; sub_count = a.sub_count + 1 })

  unfoldable pub close_sub : Arg Number → Account → Account
  unfolding text_eq
  close_sub none a = a
  close_sub (some v) a = elim v [
    | str s ↦
        if among a.subs s
        then record a {
          subs = keep (λ t. not (text_eq t s)) a.subs;
          sub_count = if ltb 0 a.sub_count then a.sub_count - 1 else a.sub_count;
        }
        else a
    | _ ↦ a
  ]

  -- The kind of an event, printed.
  unfoldable pub event_kind : Arg Number → Option Text
  unfolding get
  event_kind none = none
  event_kind (some v) = elim v [
    | obj fs ↦ elim (get (codes "kind") fs) [
      | none ↦ none
      | some k ↦ elim k [ num x ↦ some (print x) | _ ↦ none ]
    ]
    | _ ↦ none
  ]

  unfoldable pub on_event : Cfg → Arg Number → Account → Ruling
  unfolding event_kind
  on_event cfg ev a =
      let (paid, a') = spend_event a in
      if not paid then refuse (codes "event-rate") [] a' else elim (event_kind ev) [
        | none ↦ refuse (codes "malformed") (codes "bad-event") a'
        | some kind ↦
            if among cfg.kind_deny kind
            then refuse (codes "kind-denied") (codes "kind=" ++ kind) a'
            else accept a'
      ]

  -- REQ and COUNT, with all filters, and NEG-OPEN, with one; COUNT opens no subscription.
  unfoldable pub on_query : Cfg → Bool → Arg Number → List (Arg Number) → Account → Ruling
  unfolding sub_id
  on_query cfg opens id filters a =
      let (paid, a') = spend_req a in
      if not paid then refuse (codes "req-rate") [] a' else elim (sub_id id) [
        | none ↦ refuse (codes "malformed") (codes "bad-subscription-id") a'
        | some sid ↦ elim (check_filters R cfg filters) [
          | some v ↦ (some v, a')
          | none ↦ if opens then open_sub cfg sid a' else accept a'
        ]
      ]

  unfoldable pub on_auth : Account → Ruling
  on_auth a =
      let (paid, a') = spend_event a in
      if not paid then refuse (codes "event-rate") [] a' else accept a'

  -- A message of an allowed type, with what follows the type.
  unfoldable pub dispatch : Cfg → Text → Items Number → Account → Ruling
  unfolding text_eq
  dispatch cfg t more a =
      if text_eq t (codes "EVENT")
      then on_event cfg (first more) a
      else if text_eq t (codes "REQ") || text_eq t (codes "COUNT")
      then on_query cfg (text_eq t (codes "REQ")) (first more) (args (rest more)) a
      else if text_eq t (codes "NEG-OPEN")
      then on_query cfg true (first more) (first (rest more) ∷ []) a
      else if text_eq t (codes "AUTH")
      then on_auth a
      else if text_eq t (codes "CLOSE") || text_eq t (codes "NEG-CLOSE")
      then accept (close_sub (first more) a)
      else accept a

  -- The type of a message, and what follows it.
  unfoldable pub message : Js Number → Option (Text × Items Number)
  message v = elim v [
    | arr vs ↦ elim vs [ nil ↦ none | item t more ↦ elim t [ str s ↦ some (s, more) | _ ↦ none ] ]
    | _ ↦ none
  ]

  unfoldable pub inspect : Cfg → Bytes → Account → Ruling
  unfolding message text_eq
  inspect cfg buf a =
      let (paid, a') = spend_msg a in
      if not paid
      then refuse (codes "msg-rate") [] a'
      else elim (parse_json (from_utf8_lossy buf)) [
        | none ↦ refuse (codes "malformed") (codes "bad-json") a'
        | some v ↦ elim (message v) [
          | none ↦ refuse (codes "malformed") (codes "not-a-nostr-message") a'
          | some (t, more) ↦
              if not (among cfg.types t)
              then refuse (codes "type-not-allowed") t a'
              else dispatch cfg t more a'
        ]
      ]
