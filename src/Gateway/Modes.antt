-- ===== src/Gateway/Modes.antt =====
-- internal/push/gateway.go: sendFallback, sendParallel, sendAllSuccess, and the classification of
-- their outcomes. The parallel sends run here one after the other, in the order of the channels;
-- each answer of a service may be what the other sends leave, and `arrival` is the order in which
-- the outcomes arrive.
use startlink.Base.{
  ℕ, ◌+◌, Bool, true, false, not, ◌&&◌, List, [], ◌∷◌, Option, none, some, ◌==◌, ltb, if◌then◌else◌,
  length, take,
}
use startlink.Domain.Channel.{ChannelType}
use startlink.Gateway.Services.{Services, World, PushMessage, SendError, Outcome}
use startlink.Gateway.Snapshot.{check_main_gate}
use startlink.Gateway.Checks.{is_retryable_send_err}
use startlink.Gateway.Sending.{send_one, mark_cancelled}

-- The variables of classifyParallelOutcomes.
pub record Tally : Type 0 where
  pub any_ok : Bool
  pub any_suppressed : Bool
  pub last_err : Option SendError
  pub deferred_err : Option SendError

unfoldable pub is_suppressed : SendError → Bool
is_suppressed SendError.suppressed = true
is_suppressed _ = false

unfoldable pub tally_error : SendError → Tally → Tally
unfolding is_suppressed is_retryable_send_err
tally_error e t =
    if is_suppressed e
    then record t { any_suppressed = true }
    else (if is_retryable_send_err e
        then record t { deferred_err = some e }
        else record t { last_err = some e })

-- One round of its loop.
unfoldable pub tally_one : Outcome → Tally → Tally
unfolding tally_error
tally_one o t =
    if o.ok then record t { any_ok = true } else elim o.err [ none ↦ t | some e ↦ tally_error e t ]

unfoldable pub tally : List Outcome → Tally → Tally
unfolding tally_one
tally [] t = t
tally (o ∷ os) t = tally os (tally_one o t)

abbrev pub no_tally : Tally
no_tally = record { any_ok = false; any_suppressed = false; last_err = none; deferred_err = none }

unfoldable pub parallel_verdict : Tally → Option SendError
parallel_verdict t = if t.any_ok then none else elim t.deferred_err [
  | some e ↦ some e
  | none ↦ elim t.last_err [
    | some e ↦ some e
    | none ↦
        if t.any_suppressed then none else some (SendError.other "all parallel channels failed")
  ]
]

-- classifyParallelOutcomes; `none` is a nil error.
unfoldable pub classify_parallel_outcomes : List Outcome → Option SendError
unfolding tally parallel_verdict
classify_parallel_outcomes outcomes = parallel_verdict (tally outcomes no_tally)

unfoldable pub either_err : Option SendError → Option SendError → Option SendError
either_err (some e) last = some e
either_err none last = last

-- The loop of classifyAllSuccessOutcomes over its two variables.
unfoldable pub all_success_from :
    List Outcome → Option SendError → Option SendError → Option SendError
unfolding is_suppressed is_retryable_send_err either_err
all_success_from [] last retryable = either_err retryable last
all_success_from (o ∷ os) last retryable =
    let skip = all_success_from os last retryable in
    if o.ok then skip else elim o.err [
      | none ↦ all_success_from os (some (SendError.other "all_success: channel failed")) retryable
      | some e ↦
          let hold = all_success_from os last (some e) in
          let fail = all_success_from os (some e) retryable in
          if is_suppressed e then skip else (if is_retryable_send_err e then hold else fail)
    ]

unfoldable pub classify_all_success_outcomes : List Outcome → Option SendError
unfolding all_success_from
classify_all_success_outcomes outcomes = all_success_from outcomes none none

-- The goroutines of sendParallel and sendAllSuccess.
unfoldable pub send_each : Services → PushMessage → List ChannelType → World → List Outcome × World
unfolding send_one
send_each s m [] w = ([], w)
send_each s m (ch ∷ chs) w =
    let o = send_one s m ch w in let rest = send_each s m chs o.1 in (o.0 ∷ rest.0, rest.1)

unfoldable pub send_parallel :
    Services
    → (List Outcome → List Outcome)
    → PushMessage
    → List ChannelType
    → World
    → Option SendError × World
unfolding send_each classify_parallel_outcomes
send_parallel s arrival m chs w =
    let r = send_each s m chs w in (classify_parallel_outcomes (arrival r.0), r.1)

unfoldable pub send_all_success :
    Services
    → (List Outcome → List Outcome)
    → PushMessage
    → List ChannelType
    → World
    → Option SendError × World
unfolding send_each classify_all_success_outcomes
send_all_success s arrival m chs w =
    let r = send_each s m chs w in (classify_all_success_outcomes (arrival r.0), r.1)

-- The errors at which sendFallback stops: another channel would fare no better.
unfoldable pub stops_fallback : SendError → Bool
unfolding is_retryable_send_err
stops_fallback SendError.main_paused = true
stops_fallback SendError.outside_window = true
stops_fallback SendError.quiet_hours = true
stops_fallback e = is_retryable_send_err e

-- What follows sendOne for a channel: return, or go on with the loop's two variables.
pub data Turn : Type 0 where
  return : Option SendError → Turn
  go_on : Option SendError → Bool → Turn

unfoldable pub turn_after : Outcome → Option SendError → Bool → Turn
unfolding is_suppressed stops_fallback
turn_after o last any_suppressed = if o.ok then return none else elim o.err [
  | none ↦ return none
  | some e ↦
      if is_suppressed e
      then go_on last true
      else (if stops_fallback e then return (some e) else go_on (some e) any_suppressed)
]

unfoldable pub fallback_end : Option SendError → Bool → Option SendError
fallback_end (some e) any_suppressed = some e
fallback_end none true = none
fallback_end none false = some (SendError.other "all channels failed")

-- `rest` is the loop over the channels that are left.
unfoldable pub after_turn :
    (Option SendError → Bool → World → Option SendError × World)
    → Turn
    → World
    → Option SendError × World
after_turn rest (return e) w = (e, w)
after_turn rest (go_on last any_suppressed) w = rest last any_suppressed w

-- One round of the loop, after the check of the task's status.
unfoldable pub try_channel :
    Services
    → PushMessage
    → ChannelType
    → (Option SendError → Bool → World → Option SendError × World)
    → Option SendError
    → Option SendError
    → Bool
    → World
    → Option SendError × World
unfolding send_one mark_cancelled turn_after after_turn
try_channel s m ch rest (some SendError.main_cancelled) last any_suppressed w =
    (none, mark_cancelled s m ch (s.content_of m ch).body w)
try_channel s m ch rest (some e) last any_suppressed w = (some e, w)
try_channel s m ch rest none last any_suppressed w =
    let o = send_one s m ch w in after_turn rest (turn_after o.0 last any_suppressed) o.1

-- The loop of sendFallback; `force` is `i > 0`.
unfoldable pub fallback_from :
    Services
    → PushMessage
    → List ChannelType
    → Bool
    → Option SendError
    → Bool
    → World
    → Option SendError × World
unfolding check_main_gate try_channel fallback_end
fallback_from s m [] force last any_suppressed w = (fallback_end last any_suppressed, w)
fallback_from s m (ch ∷ chs) force last any_suppressed w =
    let gate = check_main_gate s force m.main_task_id w in
    try_channel s m ch (fallback_from s m chs true) gate.0 last any_suppressed gate.1

-- `chs[:msg.MaxFallback+1]`
unfoldable pub cut_chain : ℕ → List ChannelType → List ChannelType
cut_chain max_fallback chs =
    if not (max_fallback == 0) && ltb (max_fallback + 1) (length chs)
    then take (max_fallback + 1) chs
    else chs

-- sendFallback
unfoldable pub send_fallback :
    Services → PushMessage → List ChannelType → World → Option SendError × World
unfolding cut_chain fallback_from
send_fallback s m chs w = fallback_from s m (cut_chain m.max_fallback chs) false none false w
