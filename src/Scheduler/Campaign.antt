-- ===== src/Scheduler/Campaign.antt =====
-- internal/domain/task.go, internal/domain/message.go: what the splitter and the worker read of a
-- campaign, and the users of an audience. The content of a campaign does not change once it is
-- published; JSON columns are held decoded, `none` where the text is empty, null or no document.
use startlink.Base.{
  ℕ, String, Bool, List, [], ◌∷◌, Option, none, some, leb, str_eq, any, length, ℤ, if◌then◌else◌,
}
use startlink.Domain.Channel.{ChannelType, ChannelMode, mode_normalize}
use startlink.Domain.Priority.{Priority}
use startlink.Domain.Costs.{ChannelRouteRule}

-- LocaleContent: the body and whether the locale has contents for channels.
pub record LocaleContent : Type 0 where
  pub body : String
  pub blank : Bool  -- strings.TrimSpace(lc.Body) == ""
  pub has_contents : Bool

-- The columns of MainTask that the splitter and the worker read and nothing writes.
pub record Campaign : Type 0 where
  pub id : ℕ
  pub biz_scene : String
  pub topic : String
  pub priority : Priority
  pub channel : ChannelType
  pub channels : Option (List ChannelType)
  pub channel_mode : ChannelMode
  pub template_body : String
  pub default_locale : String
  pub template_locales : List (String × LocaleContent)
  pub strict_vars : Bool
  pub payload : List (String × String)
  pub has_exclude : Bool  -- strings.TrimSpace(main.ExcludeSegmentCode) != ""
  pub expire_at : Option ℕ
  pub pace_qps : ℤ
  pub experiment_id : String
  pub experiment_salt : String
  pub experiment_control_percent : ℤ
  pub ab_sample_percent : Option ℤ  -- of audience_extra
  pub ab_sample_salt : String
  pub max_fallback : ℕ
  pub channel_routes : List ChannelRouteRule
  pub channel_costs : List (ChannelType × ℕ)

unfoldable pub or_channel : ChannelType → List ChannelType
or_channel ch = if str_eq ch "" then [] else ch ∷ []

unfoldable pub list_or : ChannelType → Option (List ChannelType) → List ChannelType
unfolding or_channel
list_or ch none = or_channel ch
list_or ch (some []) = or_channel ch
list_or ch (some (c ∷ cs)) = c ∷ cs

-- ChannelList
unfoldable pub channel_list : Campaign → List ChannelType
unfolding list_or
channel_list c = list_or c.channel c.channels

unfoldable pub chain_mode : ChannelMode → ℕ → ChannelMode
chain_mode ChannelMode.conditional n = ChannelMode.conditional
chain_mode ChannelMode.cost_priority n = ChannelMode.cost_priority
chain_mode ChannelMode.single n = if leb n 1 then ChannelMode.single else ChannelMode.fallback
chain_mode m n = if leb n 1 then ChannelMode.single else m

-- EffectiveChannelMode
unfoldable pub effective_channel_mode : Campaign → ChannelMode
unfolding chain_mode channel_list mode_normalize
effective_channel_mode c = chain_mode (mode_normalize c.channel_mode) (length (channel_list c))

-- The channels that are in a set too, in their order.
unfoldable pub kept : List ChannelType → List ChannelType → List ChannelType
kept allow [] = []
kept allow (c ∷ cs) = let rest = kept allow cs in if any (str_eq c) allow then c ∷ rest else rest

-- IntersectChannels
unfoldable pub intersect_channels : List ChannelType → List ChannelType → List ChannelType
unfolding kept
intersect_channels [] user = []
intersect_channels (c ∷ cs) [] = c ∷ cs
intersect_channels (c ∷ cs) (u ∷ us) = kept (u ∷ us) (c ∷ cs)

-- TargetUser, less the variables.
pub record TargetUser : Type 0 where
  pub user_id : String
  pub channels : List ChannelType
  pub extra : List (String × String)
  pub locale : String
  pub timezone : String

-- AudiencePage, less the hint.
pub record AudiencePage : Type 0 where
  pub users : List TargetUser
  pub next_page_token : String
  pub has_more : Bool

-- A map: the entry put last is found.
unfoldable pub find {ℓ} : {V : Type ℓ} → String → List (String × V) → Option V
find k [] = none
find k ((j, v) ∷ m) = if str_eq j k then some v else find k m
