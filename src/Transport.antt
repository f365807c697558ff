-- ===== src/Transport.antt =====
-- core/transport/transport.ts: the classes of errors, and the sending of a message over the registered transports.
-- What a transport does is its own code: here it is a state of the connection, a test and an answer.
pub mod Failover
mod Examples
use maw_js.Prelude.{
  ℕ, Bool, true, false, not, ◌&&◌, ◌||◌, Option, none, some, List, [], ◌∷◌, Text, text, is_empty,
  starts_with, includes, lower_case, ◌==◌, if◌then◌else◌, any, drop, is_line_end,
}

pub data TransportFailureReason : Type 0 where
  timeout unreachable auth rate_limit rejected parse_error unknown : TransportFailureReason

pub record TransportTarget : Type 0 where
  pub oracle : Text
  pub host : Option Text
  pub tmux_target : Option Text

pub record TransportResult : Type 0 where
  pub ok : Bool
  pub via : Text
  pub reason : Option TransportFailureReason
  pub retryable : Bool

abbrev includes_any : List Text → Text → Bool
includes_any words msg = any (λ w. includes msg w) words

-- The regular expression `rate.?limit`, where the point is any character but a line's end.
abbrev after_rate : Text → Bool
after_rate [] = false
after_rate (c ∷ s) =
    starts_with (c ∷ s) (text "limit") || (not (is_line_end c) && starts_with s (text "limit"))

unfoldable pub has_rate_limit : Text → Bool
unfolding starts_with
has_rate_limit [] = false
has_rate_limit (c ∷ s) =
    starts_with (c ∷ s) (text "rate") && after_rate (drop 4 (c ∷ s)) || has_rate_limit s

-- `classifyError` of an error's text, where `none` is a falsy value.
unfoldable pub classify_error : Option Text → TransportFailureReason × Bool
unfolding includes has_rate_limit
classify_error none = (unknown, false)
classify_error (some err) =
    let msg = lower_case err in
    if includes_any (text "timeout" ∷ text "etimedout" ∷ text "econnreset" ∷ []) msg
    then (timeout, true)
    else (if includes_any (text "econnrefused" ∷ text "unreachable" ∷ text "enetunreach" ∷ []) msg
        then (unreachable, true)
        else (if includes_any
              (text "401" ∷ text "403" ∷ text "auth" ∷ text "unauthorized" ∷ text "forbidden" ∷ [])
              msg
            then (auth, false)
            else (if includes_any (text "429" ∷ text "too many" ∷ []) msg || has_rate_limit msg
                then (rate_limit, true)
                else (if includes_any (text "400" ∷ text "reject" ∷ text "denied" ∷ []) msg
                    then (rejected, false)
                    else (if includes_any (text "parse" ∷ text "json" ∷ text "syntax" ∷ []) msg
                        then (parse_error, false)
                        else (unknown, false))))))

-- What `send` of a transport comes to: its Boolean, or the error that it throws.
pub data Attempt : Type 0 where
  answered : Bool → Attempt
  threw : Option Text → Attempt

pub record Transport : Type 0 where
  pub name : Text
  pub connected : Bool
  pub can_reach : TransportTarget → Bool
  pub send : TransportTarget → (message : Text) → Attempt

abbrev pub after_error : Transport → TransportFailureReason × Bool → Option TransportResult
after_error t (reason, true) = none
after_error t (reason, false) =
    some (record { ok = false; via = t.name; reason = some reason; retryable = false })

-- What the router makes of an attempt: it ends with a result or goes on.
abbrev pub after_attempt : Transport → Attempt → Option TransportResult
after_attempt t (answered true) =
    some (record { ok = true; via = t.name; reason = none; retryable = false })
after_attempt t (answered false) = none
after_attempt t (threw err) = after_error t (classify_error err)

abbrev pub all_failed : TransportResult
all_failed = record { ok = false; via = text "none"; reason = some unreachable; retryable = false }

abbrev pub is_usable : TransportTarget → Transport → Bool
is_usable target t = t.connected && t.can_reach target

abbrev pub end_or_next :
    Transport
    → Option TransportResult
    → (rest : TransportResult × List Transport) → TransportResult × List Transport
end_or_next t (some r) rest = (r, t ∷ [])
end_or_next t none rest = (rest.0, t ∷ rest.1)

-- `send`, with the transports that were asked, in order.
unfoldable pub send :
    List Transport → TransportTarget → (message : Text) → TransportResult × List Transport
unfolding classify_error
send [] target message = (all_failed, [])
send (t ∷ ts) target message =
    let rest = send ts target message in
    if is_usable target t
    then end_or_next t (after_attempt t (t.send target message)) rest
    else rest
