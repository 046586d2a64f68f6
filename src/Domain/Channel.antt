-- ===== src/Domain/Channel.antt =====
-- internal/domain/status.go: channels and channel modes.
use startlink.Base.{String, Bool, true, false, ◌||◌, str_eq}

-- A channel is the string that names it.
abbrev pub ChannelType : Type 0
ChannelType = String

abbrev pub app_push : ChannelType
app_push = "app_push"

abbrev pub sms : ChannelType
sms = "sms"

abbrev pub email : ChannelType
email = "email"

abbrev pub inbox : ChannelType
inbox = "inbox"

abbrev pub wecom : ChannelType
wecom = "wecom"

abbrev pub dingtalk : ChannelType
dingtalk = "dingtalk"

unfoldable pub channel_valid : ChannelType → Bool
channel_valid c =
    str_eq c app_push
    || str_eq c sms
    || str_eq c email
    || str_eq c inbox
    || str_eq c wecom
    || str_eq c dingtalk

-- `unset` is the empty string, `unknown` any string that is no constant.
pub data ChannelMode : Type 0 where
  unset single fallback parallel all_success conditional cost_priority : ChannelMode
  unknown : String → ChannelMode

unfoldable pub mode_valid : ChannelMode → Bool
mode_valid (ChannelMode.unknown _) = false
mode_valid _ = true

unfoldable pub mode_normalize : ChannelMode → ChannelMode
mode_normalize ChannelMode.unset = ChannelMode.single
mode_normalize m = m
