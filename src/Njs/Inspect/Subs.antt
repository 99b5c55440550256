-- ===== src/Njs/Inspect/Subs.antt =====
-- The subscriptions of a session of core/njs/shield_ws.js are counted and limited.
use fips_shield.Base.{
  none, some, ◌+◌, ◌≤◌, ◌≡◌, Bool, true, not, List, [], ◌∷◌, arith, length, keep,
}
use fips_shield.Std.Text.{Text, text_eq}
use fips_shield.Std.Utf8.{Bytes}
use fips_shield.Njs.Runtime.{Runtime, Items, str, null, bool, num, arr, obj}
use fips_shield.Njs.Session.{Cfg, Account}
use fips_shield.Njs.Filters.{among}
use fips_shield.Njs.Inspect.{
  Arg, inspect, dispatch, on_event, on_query, on_auth, open_sub, close_sub,
}

-- No more subscriptions are open than are counted, and no more are counted than are allowed.
pub record IsCounted (cfg : Cfg) (a : Account) : Type 0 where
  pub open_le : length a.subs ≤ a.sub_count
  pub count_le : a.sub_count ≤ cfg.max_subs

length-keep : (p : Text → Bool) (ts : List Text) → length (keep p ts) ≤ length ts
length-keep p [] = omega arith
length-keep p (t ∷ ts) = ground (arith, length-keep p ts)

length-keep-among :
    (s : Text) (ts : List Text)
    → among ts s ≡ true
    → length (keep (λ t. not (text_eq t s)) ts) + 1 ≤ length ts
length-keep-among s [] h = absurd (ground arith)
length-keep-among s (t ∷ ts) h =
    ground (arith, length-keep (λ t. not (text_eq t s)) ts, length-keep-among s ts)

module _ (R : Runtime) (cfg : Cfg) where
  open R use {Number}

  open_sub-IsCounted :
      (sid : Text) (a : Account) → IsCounted cfg a → IsCounted cfg (open_sub R cfg sid a).1
  unfolding open_sub
  open_sub-IsCounted sid a v = ground arith

  close_sub-IsCounted :
      (x : Arg Number) (a : Account) → IsCounted cfg a → IsCounted cfg (close_sub R x a)
  unfolding close_sub
  close_sub-IsCounted none a v = v
  close_sub-IsCounted (some (str s)) a v = ground (arith, length-keep-among s a.subs)
  close_sub-IsCounted (some null) a v = v
  close_sub-IsCounted (some (bool b)) a v = v
  close_sub-IsCounted (some (num x)) a v = v
  close_sub-IsCounted (some (arr xs)) a v = v
  close_sub-IsCounted (some (obj fs)) a v = v

  on_event-IsCounted :
      (x : Arg Number) (a : Account) → IsCounted cfg a → IsCounted cfg (on_event R cfg x a).1
  unfolding on_event
  on_event-IsCounted x a v = ground arith

  on_auth-IsCounted : (a : Account) → IsCounted cfg a → IsCounted cfg (on_auth R a).1
  unfolding on_auth
  on_auth-IsCounted a v = ground arith

  on_query-IsCounted :
      (opens : Bool) (x : Arg Number) (fs : List (Arg Number)) (a : Account)
      → IsCounted cfg a
      → IsCounted cfg (on_query R cfg opens x fs a).1
  unfolding on_query
  on_query-IsCounted opens x fs a v = grind (arith, open_sub-IsCounted)

  dispatch-IsCounted :
      (t : Text) (more : Items Number) (a : Account)
      → IsCounted cfg a
      → IsCounted cfg (dispatch R cfg t more a).1
  unfolding dispatch
  dispatch-IsCounted t more a v =
      grind (arith, on_event-IsCounted, on_query-IsCounted, on_auth-IsCounted, close_sub-IsCounted)

  -- An inspection keeps the count of the subscriptions, whatever the message.
  pub inspect-IsCounted :
      (buf : Bytes) (a : Account) → IsCounted cfg a → IsCounted cfg (inspect R cfg buf a).1
  unfolding inspect
  inspect-IsCounted buf a v = grind (arith, dispatch-IsCounted)
