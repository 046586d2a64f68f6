-- ===== src/Gateway/Handler.antt =====
-- internal/push/gateway.go: Handle and markExpired. A nil error acknowledges the message, any other
-- leaves it in the queue.
use startlink.Base.{
  ℕ, Bool, true, false, not, ◌&&◌, List, [], ◌∷◌, Option, none, some, ◌==◌, ltb, if◌then◌else◌,
  str_eq,
}
use startlink.Domain.Status.{PushStatus, TaskStatus}
use startlink.Domain.Channel.{ChannelType, ChannelMode}
use startlink.Domain.Schedule.{SendWindow, in_send_windows}
use startlink.Gateway.Services.{
  Services, World, PushMessage, SendError, Outcome, tick, effective_channels, effective_mode,
  resolve_send_channels,
}
use startlink.Gateway.Snapshot.{SnapReply, snap, unavailable, load_main_snap}
use startlink.Gateway.Checks.{in_platform_quiet_hours, in_user_quiet_hours}
use startlink.Gateway.Sending.{claim, settle, mark_cancelled, send_one}
use startlink.Gateway.Modes.{is_suppressed, send_parallel, send_all_success, send_fallback}

-- `msg.ExpireAt != nil && !msg.ExpireAt.IsZero() && time.Now().After(*msg.ExpireAt)`
unfoldable pub has_expired : Option ℕ → ℕ → Bool
has_expired none now = false
has_expired (some at) now = not (at == 0) && ltb at now

-- The loop of markExpired.
unfoldable pub expire_each : Services → PushMessage → List ChannelType → World → World
unfolding claim settle
expire_each s m [] w = w
expire_each s m (ch ∷ chs) w = expire_each s m chs (
    if str_eq ch ""
    then w
    else settle s PushStatus.expired "campaign expired" (claim s m ch (s.content_of m ch).body w))

-- `if len(chs) == 0 { chs = []ChannelType{msg.Channel} }`
unfoldable pub or_channel : ChannelType → List ChannelType → List ChannelType
or_channel ch [] = ch ∷ []
or_channel ch (c ∷ cs) = c ∷ cs

unfoldable pub mark_expired : Services → PushMessage → World → World
unfolding expire_each or_channel effective_channels
mark_expired s m w = expire_each s m (or_channel m.channel (effective_channels m)) w

-- The error that Handle makes of sendOne's results.
unfoldable pub handled : Outcome → Option SendError
unfolding is_suppressed
handled o =
    if o.ok
    then none
    else elim o.err [ none ↦ none | some e ↦ if is_suppressed e then none else some e ]

unfoldable pub send_single : Services → PushMessage → ChannelType → World → Option SendError × World
unfolding send_one handled
send_single s m ch w = let o = send_one s m ch w in (handled o.0, o.1)

-- The `switch mode`.
unfoldable pub send_by_mode :
    Services
    → (List Outcome → List Outcome)
    → PushMessage
    → ChannelMode
    → List ChannelType
    → World
    → Option SendError × World
unfolding send_parallel send_all_success send_fallback send_single
send_by_mode s arrival m mode [] w = (some (SendError.other "no channel configured"), w)
send_by_mode s arrival m ChannelMode.parallel (c ∷ cs) w = send_parallel s arrival m (c ∷ cs) w
send_by_mode s arrival m ChannelMode.all_success (c ∷ cs) w =
    send_all_success s arrival m (c ∷ cs) w
send_by_mode s arrival m ChannelMode.fallback (c ∷ cs) w = send_fallback s m (c ∷ cs) w
send_by_mode s arrival m ChannelMode.cost_priority (c ∷ cs) w = send_fallback s m (c ∷ cs) w
send_by_mode s arrival m ChannelMode.conditional (c ∷ []) w = send_single s m c w
send_by_mode s arrival m ChannelMode.conditional (c ∷ d ∷ cs) w = send_fallback s m (c ∷ d ∷ cs) w
send_by_mode s arrival m _ (c ∷ cs) w = send_single s m c w

unfoldable pub dispatch :
    Services → (List Outcome → List Outcome) → PushMessage → World → Option SendError × World
unfolding send_by_mode
dispatch s arrival m w =
    send_by_mode s arrival m (effective_mode m) (resolve_send_channels (s.condition_holds m) m) w

unfoldable pub after_user_quiet :
    Services
    → (List Outcome → List Outcome)
    → PushMessage
    → Option Bool
    → World
    → Option SendError × World
unfolding dispatch
after_user_quiet s arrival m none w = (some SendError.pref_unavailable, w)
after_user_quiet s arrival m (some true) w = (some SendError.quiet_hours, w)
after_user_quiet s arrival m (some false) w = dispatch s arrival m w

-- The windows and the quiet hours, at the minute `mins` of the day.
unfoldable pub after_clock :
    Services
    → (List Outcome → List Outcome)
    → PushMessage
    → List SendWindow
    → ℕ
    → World
    → Option SendError × World
unfolding in_send_windows in_platform_quiet_hours in_user_quiet_hours after_user_quiet
after_clock s arrival m windows mins w =
    if not (in_send_windows windows mins)
    then (some SendError.outside_window, w)
    else (if in_platform_quiet_hours s.freq m.biz_scene mins
        then (some SendError.quiet_hours, w)
        else (let quiet = in_user_quiet_hours s m w in
            after_user_quiet s arrival m quiet.0 quiet.1))

-- The time of expiry, after the status.
unfoldable pub unless_expired :
    Services
    → (List Outcome → List Outcome)
    → PushMessage
    → List SendWindow
    → World
    → Option SendError × World
unfolding has_expired mark_expired after_clock tick
unless_expired s arrival m windows w =
    if has_expired m.expire_at (s.clock w.calls)
    then (none, mark_expired s m (tick w))
    else after_clock s arrival m windows (s.minute_of_day m.timezone (s.clock w.calls)) (tick w)

unfoldable pub after_status :
    Services
    → (List Outcome → List Outcome)
    → PushMessage
    → SnapReply
    → World
    → Option SendError × World
unfolding mark_cancelled unless_expired
after_status s arrival m unavailable w = (some SendError.main_unavailable, w)
after_status s arrival m (snap TaskStatus.cancelled windows) w =
    (none, mark_cancelled s m m.channel m.body w)
after_status s arrival m (snap TaskStatus.paused windows) w = (some SendError.main_paused, w)
after_status s arrival m (snap _ windows) w = unless_expired s arrival m windows w

-- Handle
unfoldable pub handle :
    Services → (List Outcome → List Outcome) → PushMessage → World → Option SendError × World
unfolding load_main_snap after_status
handle s arrival m w =
    let r = load_main_snap s false m.main_task_id w in after_status s arrival m r.0 r.1
