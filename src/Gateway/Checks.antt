-- ===== src/Gateway/Checks.antt =====
-- internal/push/gateway.go: allowFreq, checkUnsubscribed, resolvePreference, inUserQuietHours,
-- inQuietHours, waitToken and isRetryableSendErr.
use startlink.Base.{
  ℕ, String, Bool, true, false, not, ◌&&◌, ◌||◌, List, [], ◌∷◌, Option, none, some, ◌==◌,
  if◌then◌else◌, str_eq, any,
}
use startlink.Domain.Channel.{ChannelType}
use startlink.Domain.Priority.{is_high, normalize}
use startlink.Domain.Schedule.{SendWindow, in_quiet_hours}
use startlink.Domain.Preference.{UserPreference, Reason, blocks, quiet_window, resolve_topic}
use startlink.Domain.Text.{codes, text_eq, to_lower}
use startlink.Gateway.Services.{
  Services, World, PushMessage, SendError, FrequencyLimit, FrequencyKey, FreqConfig, tick,
}

unfoldable pub is_retryable_send_err : SendError → Bool
is_retryable_send_err SendError.throttled = true
is_retryable_send_err SendError.freq_unavailable = true
is_retryable_send_err SendError.unsub_unavailable = true
is_retryable_send_err SendError.pref_unavailable = true
is_retryable_send_err SendError.main_unavailable = true
is_retryable_send_err SendError.canceled = true
is_retryable_send_err SendError.deadline_exceeded = true
is_retryable_send_err _ = false

-- The checks with a limit and a window.
unfoldable pub active_limits : List FrequencyLimit → List FrequencyLimit
active_limits [] = []
active_limits (c ∷ cs) =
    let rest = active_limits cs in if c.limit == 0 || c.window_sec == 0 then rest else c ∷ rest

-- The checks of allowFreq: the marketing cap is for messages that are not transactional.
unfoldable pub freq_checks : FreqConfig → PushMessage → ChannelType → List FrequencyLimit
unfolding is_high
freq_checks c m ch =
    record {
      key = FrequencyKey.user m.user_id;
      limit = c.user_limit;
      window_sec = c.user_window_sec;
    }
    ∷ record {
      key = FrequencyKey.user_channel m.user_id ch;
      limit = c.user_channel_limit;
      window_sec = c.user_channel_window_sec;
    }
    ∷ record {
      key = FrequencyKey.scene m.biz_scene;
      limit = c.scene_limit;
      window_sec = c.scene_window_sec;
    }
    ∷ (if is_high m.priority
        then []
        else record {
          key = FrequencyKey.marketing m.user_id;
          limit = c.marketing_limit;
          window_sec = c.marketing_window_sec;
        }
          ∷ [])

pub data FreqReply : Type 0 where
  allowed denied unsure : FreqReply

-- An error of the service lets a transactional message pass and holds back the others.
unfoldable pub freq_reply : Bool → Option Bool → FreqReply
freq_reply high none = if high then allowed else unsure
freq_reply high (some true) = allowed
freq_reply high (some false) = denied

-- allowFreq
unfoldable pub allow_freq : Services → PushMessage → ChannelType → World → FreqReply × World
unfolding freq_reply active_limits freq_checks is_high tick
allow_freq s m ch w = if not s.freq.enabled || not s.has_cache then (allowed, w) else (
  freq_reply (is_high m.priority)
      (s.allow_all_at w.calls (active_limits (freq_checks s.freq m ch))),
  tick w,
)

pub data PrefReply : Type 0 where
  preference : Option UserPreference → PrefReply
  unknown : PrefReply

unfoldable pub pref_reply : Bool → Option (Option UserPreference) → PrefReply
pref_reply fail_open none = if fail_open then preference none else unknown
pref_reply fail_open (some p) = preference p

-- resolvePreference
unfoldable pub resolve_preference : Services → PushMessage → World → PrefReply × World
unfolding pref_reply is_high tick
resolve_preference s m w =
    if not s.has_prefs || str_eq m.user_id ""
    then (preference none, w)
    else (pref_reply (is_high m.priority || s.prefs_open) (s.preference_at w.calls), tick w)

-- Let pass, opted out (`none` is the unsubscribe list), or an error.
pub data OptOutReply : Type 0 where
  passes : OptOutReply
  opted_out : Option Reason → OptOutReply
  undecided : SendError → OptOutReply

unfoldable pub of_reason : Option Reason → OptOutReply
of_reason none = passes
of_reason (some r) = opted_out (some r)

unfoldable pub by_preference : PushMessage → ChannelType → PrefReply → OptOutReply
unfolding of_reason resolve_topic normalize
by_preference m ch unknown = undecided SendError.pref_unavailable
by_preference m ch (preference p) =
    of_reason (blocks p ch (resolve_topic m.topic m.biz_scene) (normalize m.priority))

unfoldable pub by_list :
    Services → PushMessage → ChannelType → Option Bool → World → OptOutReply × World
unfolding by_preference resolve_preference is_high
by_list s m ch none w =
    if is_high m.priority
    then (let r = resolve_preference s m w in (by_preference m ch r.0, r.1))
    else (undecided SendError.unsub_unavailable, w)
by_list s m ch (some true) w = (opted_out none, w)
by_list s m ch (some false) w = let r = resolve_preference s m w in (by_preference m ch r.0, r.1)

-- checkUnsubscribed
unfoldable pub check_unsubscribed :
    Services → PushMessage → ChannelType → World → OptOutReply × World
unfolding by_list tick by_preference resolve_preference
check_unsubscribed s m ch w =
    if s.has_unsub
    then by_list s m ch (s.unsubscribed_at w.calls) (tick w)
    else (let r = resolve_preference s m w in (by_preference m ch r.0, r.1))

-- waitToken: the error of the limiter, or of the bucket of the process.
unfoldable pub limiter_error : Option SendError → Option SendError
limiter_error (some SendError.canceled) = some SendError.throttled
limiter_error (some SendError.deadline_exceeded) = some SendError.throttled
limiter_error e = e

unfoldable pub wait_token : Services → World → Option SendError × World
unfolding limiter_error tick
wait_token s w =
    if s.has_limiter
    then (limiter_error (s.wait_at w.calls), tick w)
    else ((if s.bucket_at w.calls then none else some SendError.throttled), tick w)

-- `qh.Scenes` empty, or with the scene of the message among them.
unfoldable pub scene_applies : String → List String → Bool
unfolding text_eq to_lower
scene_applies biz_scene [] = true
scene_applies biz_scene (t ∷ ts) =
    any (λ u. text_eq (to_lower (codes u)) (to_lower (codes biz_scene))) (t ∷ ts)

-- inQuietHours, at a minute of the day
unfoldable pub in_platform_quiet_hours : FreqConfig → String → ℕ → Bool
unfolding scene_applies in_quiet_hours
in_platform_quiet_hours c biz_scene mins =
    c.enabled
    && c.quiet_enabled
    && scene_applies biz_scene c.quiet_scenes
    && in_quiet_hours c.quiet_start c.quiet_end mins

-- The user's time zone comes before the campaign's.
unfoldable pub user_zone : PushMessage → Option UserPreference → String
user_zone m none = m.timezone
user_zone m (some p) = if str_eq p.timezone "" then m.timezone else p.timezone

unfoldable pub quiet_in : Option SendWindow → ℕ → Bool
unfolding in_quiet_hours
quiet_in none mins = false
quiet_in (some window) mins = in_quiet_hours window.start window.end mins

-- Quiet, not quiet, or the error of the preference service.
unfoldable pub quiet_by : Services → PushMessage → PrefReply → World → Option Bool × World
unfolding user_zone quiet_in tick
quiet_by s m unknown w = (none, w)
quiet_by s m (preference p) w =
    (some (quiet_in (quiet_window p) (s.minute_of_day (user_zone m p) (s.clock w.calls))), tick w)

-- inUserQuietHours
unfoldable pub in_user_quiet_hours : Services → PushMessage → World → Option Bool × World
unfolding quiet_by resolve_preference is_high
in_user_quiet_hours s m w =
    if is_high m.priority
    then (some false, w)
    else (let r = resolve_preference s m w in quiet_by s m r.0 r.1)
