-- ===== src/Domain/Preference.antt =====
-- internal/domain/preference.go: a user's own choices. The JSON columns are held decoded.
pub mod Laws
use startlink.Base.{
  ℕ, String, Bool, true, false, not, ◌&&◌, ◌||◌, List, [], ◌∷◌, Option, none, some, ◌==◌,
  if◌then◌else◌, str_eq, any,
}
use startlink.Domain.Channel.{ChannelType}
use startlink.Domain.Priority.{Priority, eq_high}
use startlink.Domain.Schedule.{SendWindow}
use startlink.Domain.Text.{Text, codes, is_empty, text_eq, trim_space, to_lower}

pub record UserPreference : Type 0 where
  pub user_id : String
  pub timezone : String
  pub quiet_start : String
  pub quiet_end : String
  pub opt_out_channels : List String
  pub opt_out_topics : List String
  pub marketing_opt_out : Bool

-- One entry of OptOutChannels against the channel; an entry of white space is left out.
unfoldable pub entry_is : Text → String → Bool
unfolding is_empty trim_space text_eq
entry_is ch entry =
    not (is_empty (trim_space (codes entry))) && text_eq (trim_space (codes entry)) ch

unfoldable pub is_channel_opted_out : UserPreference → ChannelType → Bool
unfolding entry_is
is_channel_opted_out p ch =
    if str_eq ch "" then false else any (entry_is (codes ch)) p.opt_out_channels

-- strings.ToLower(strings.TrimSpace(s))
unfoldable pub fold_topic : Text → Text
unfolding trim_space to_lower
fold_topic s = to_lower (trim_space s)

unfoldable pub is_topic_opted_out : UserPreference → Text → Bool
unfolding fold_topic is_empty text_eq
is_topic_opted_out p topic =
    if is_empty (fold_topic topic)
    then false
    else any (λ t. text_eq (fold_topic (codes t)) (fold_topic topic)) p.opt_out_topics

-- QuietWindow, for two ends that are trimmed.
unfoldable pub window_of : Text → Text → Option SendWindow
unfolding is_empty text_eq
window_of start end =
    if is_empty start || is_empty end || text_eq start end
    then none
    else some (record { start = start; end = end })

unfoldable pub quiet_window : Option UserPreference → Option SendWindow
unfolding window_of trim_space
quiet_window none = none
quiet_window (some p) =
    window_of (trim_space (codes p.quiet_start)) (trim_space (codes p.quiet_end))

-- The reasons of Blocks, without their wording.
pub data Reason : Type 0 where
  marketing : Reason
  channel : ChannelType → Reason
  topic : Text → Reason

unfoldable pub block_reason : UserPreference → ChannelType → Text → Option Reason
block_reason p ch t =
    if p.marketing_opt_out
    then some Reason.marketing
    else (if is_channel_opted_out p ch
        then some (Reason.channel ch)
        else (if is_topic_opted_out p t then some (Reason.topic t) else none))

-- Blocks; `none` as the preference is a nil pointer, `none` as the result lets the message pass.
unfoldable pub blocks : Option UserPreference → ChannelType → Text → Priority → Option Reason
unfolding block_reason eq_high
blocks none ch t priority = none
blocks (some p) ch t priority = if eq_high priority then none else block_reason p ch t

-- ResolveTopic
unfoldable pub resolve_topic : String → String → Text
unfolding is_empty trim_space
resolve_topic subject biz_scene =
    let t = trim_space (codes subject) in
    if not (is_empty t) then t else trim_space (codes biz_scene)
