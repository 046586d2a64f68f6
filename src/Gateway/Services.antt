-- ===== src/Gateway/Services.antt =====
-- internal/push/gateway.go, internal/domain/message.go, internal/domain/errors.go: the gateway's
-- errors, its messages, the services around it, and its state.
use startlink.Base.{
  ℕ, suc, ◌+◌, String, Bool, true, false, List, [], ◌∷◌, Option, none, some, if◌then◌else◌, length,
  leb, str_eq,
}
use startlink.Domain.Status.{TaskStatus, PushStatus}
use startlink.Domain.Channel.{ChannelType, ChannelMode, mode_normalize}
use startlink.Domain.Priority.{Priority}
use startlink.Domain.Schedule.{SendWindow}
use startlink.Domain.Preference.{UserPreference}
use startlink.Domain.Costs.{
  ChannelRouteRule, RouteCondition, match_route_rules, sort_channels_by_cost,
}
use startlink.Domain.Text.{Text}
use startlink.Records.Rows.{PushRecord}
use startlink.Records.Writes.{update_record_status}

-- The sentinels that errors.Is tells apart, and any other error.
pub data SendError : Type 0 where
  suppressed main_cancelled main_paused outside_window quiet_hours throttled : SendError
  main_unavailable freq_unavailable unsub_unavailable pref_unavailable : SendError
  canceled deadline_exceeded : SendError
  other : String → SendError

pub record PushMessage : Type 0 where
  pub main_task_id : ℕ
  pub sub_task_id : ℕ
  pub user_id : String
  pub body : String
  pub channel : ChannelType
  pub channels : List ChannelType
  pub channel_mode : ChannelMode
  pub biz_scene : String
  pub topic : String
  pub priority : Priority
  pub timezone : String
  pub expire_at : Option ℕ
  pub max_fallback : ℕ
  pub routes : List ChannelRouteRule
  pub costs : List (ChannelType × ℕ)
  pub strict_vars : Bool  -- MissingVarPolicy.Normalize() == MissingVarError
  pub experiment_group : String

-- EffectiveChannels
unfoldable pub effective_channels : PushMessage → List ChannelType
effective_channels m = elim m.channels [
  | [] ↦ if str_eq m.channel "" then [] else m.channel ∷ []
  | c ∷ cs ↦ c ∷ cs
]

-- The modes that the number of channels does not change.
unfoldable pub mode_for : ChannelMode → ℕ → ChannelMode
mode_for ChannelMode.conditional n = ChannelMode.conditional
mode_for ChannelMode.cost_priority n = ChannelMode.cost_priority
mode_for ChannelMode.single n = if leb n 1 then ChannelMode.single else ChannelMode.fallback
mode_for m n = if leb n 1 then ChannelMode.single else m

-- EffectiveMode
unfoldable pub effective_mode : PushMessage → ChannelMode
unfolding mode_for effective_channels mode_normalize
effective_mode m = mode_for (mode_normalize m.channel_mode) (length (effective_channels m))

-- ResolveSendChannels
unfoldable pub channels_for : (RouteCondition → Bool) → ChannelMode → PushMessage → List ChannelType
unfolding effective_channels
channels_for holds ChannelMode.conditional m =
    match_route_rules holds m.routes (effective_channels m)
channels_for holds ChannelMode.cost_priority m =
    sort_channels_by_cost (effective_channels m) m.costs
channels_for holds _ m = effective_channels m

unfoldable pub resolve_send_channels : (RouteCondition → Bool) → PushMessage → List ChannelType
unfolding channels_for mode_normalize
resolve_send_channels holds m = channels_for holds (mode_normalize m.channel_mode) m

-- A rendered message, and whether a variable was missing.
pub record Content : Type 0 where
  pub body : String
  pub broken : Bool

pub data MainReply : Type 0 where
  found : TaskStatus → List SendWindow → MainReply
  missing failing : MainReply

-- SendResult
pub record SendResult : Type 0 where
  pub success : Bool
  pub provider : String
  pub provider_id : String
  pub error_msg : String
  pub retryable : Bool

pub data FrequencyKey : Type 0 where
  user : String → FrequencyKey
  user_channel : String → ChannelType → FrequencyKey
  scene : String → FrequencyKey
  marketing : String → FrequencyKey

pub record FrequencyLimit : Type 0 where
  pub key : FrequencyKey
  pub limit : ℕ
  pub window_sec : ℕ

pub record FreqConfig : Type 0 where
  pub enabled : Bool
  pub user_limit : ℕ
  pub user_window_sec : ℕ
  pub user_channel_limit : ℕ
  pub user_channel_window_sec : ℕ
  pub scene_limit : ℕ
  pub scene_window_sec : ℕ
  pub marketing_limit : ℕ
  pub marketing_window_sec : ℕ
  pub quiet_enabled : Bool
  pub quiet_scenes : List String
  pub quiet_start : Text
  pub quiet_end : Text

-- What the gateway is wired to. The answers of the services go by the number of the call; `none`
-- is an error where an answer is optional.
pub record Services : Type 0 where
  pub freq : FreqConfig
  pub prefs_open : Bool
  pub has_unsub : Bool
  pub has_prefs : Bool
  pub has_cache : Bool
  pub has_limiter : Bool
  pub clock : ℕ → ℕ
  pub minute_of_day : String → ℕ → ℕ  -- of an instant in a time zone
  pub main_at : ℕ → MainReply
  pub unsubscribed_at : ℕ → Option Bool
  pub preference_at : ℕ → Option (Option UserPreference)
  pub allow_all_at : ℕ → List FrequencyLimit → Option Bool
  pub wait_at : ℕ → Option SendError
  pub bucket_at : ℕ → Bool  -- a token before the context ended
  pub has_delivered_at : ℕ → Option Bool
  pub db_fails : ℕ → Bool
  pub others : ℕ → List PushRecord → List PushRecord
  pub new_id : ℕ → ℕ
  pub registered : ChannelType → Bool
  pub send_at : ℕ → Option SendResult × Option SendError
  pub max_retry : ChannelType → ℕ
  pub interrupted_at : ℕ → Option SendError  -- the context's end during a backoff
  pub content_of : PushMessage → ChannelType → Content
  pub condition_holds : PushMessage → RouteCondition → Bool

pub record CacheEntry : Type 0 where
  pub task_id : ℕ
  pub status : TaskStatus
  pub windows : List SendWindow
  pub expires_at : ℕ

-- A call of a channel's sender.
pub record Attempt : Type 0 where
  pub record_id : ℕ
  pub channel : ChannelType

-- The number of calls made, the delivery records, the gateway's cache of the tasks, and the calls
-- of the senders, the latest first.
pub record World : Type 0 where
  pub calls : ℕ
  pub records : List PushRecord
  pub cache : List CacheEntry
  pub sent : List Attempt

unfoldable pub tick : World → World
tick w = record w { calls = suc w.calls }

-- `(bool, error)`
pub record Outcome : Type 0 where
  pub ok : Bool
  pub err : Option SendError

abbrev pub failed_with : SendError → Outcome
failed_with e = record { ok = false; err = some e }

abbrev pub stopped : Outcome
stopped = record { ok = false; err = none }

abbrev pub delivered : Outcome
delivered = record { ok = true; err = none }

-- `_ = g.pushRepo.UpdateRecordStatus(...)`, whose error is dropped.
unfoldable pub set_status : Services → ℕ → PushStatus → String → World → World
unfolding update_record_status
set_status s id status error_msg w = record w {
  records =
      (update_record_status (λ i. s.db_fails (w.calls + i)) (λ i. s.others (w.calls + i))
        (s.clock w.calls) id status "" error_msg w.records).1;
  calls = w.calls + 2;
}
