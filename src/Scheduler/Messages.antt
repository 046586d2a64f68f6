-- ===== src/Scheduler/Messages.antt =====
-- internal/scheduler/worker.go, internal/domain/message.go, internal/domain/template.go: the
-- messages that processSubTask makes of a sub task. The title, the variables and the contents for
-- channels are no part of a message here.
pub mod Sent
use startlink.Base.{
  ℕ, String, Bool, true, false, not, ◌&&◌, ◌||◌, List, [], ◌∷◌, ◌++◌, Option, none, some, leb,
  str_eq, length, if◌then◌else◌,
}
use startlink.Domain.Channel.{ChannelType, ChannelMode}
use startlink.Domain.Priority.{normalize}
use startlink.Tasks.Rows.{SubTask, SubPayload}
use startlink.Gateway.Services.{PushMessage}
use startlink.Scheduler.Campaign.{
  Campaign, LocaleContent, channel_list, effective_channel_mode, find,
}

-- ResolveLocaleContent's `try`: the body under a locale that has content.
unfoldable pub try_content : String → Option LocaleContent → Option String
try_content body none = none
try_content body (some l) =
    if not l.blank || l.has_contents then some (if l.blank then body else l.body) else none

unfoldable pub try_locale : Campaign → String → Option String
unfolding try_content find
try_locale c loc =
    if str_eq loc "" then none else try_content c.template_body (find loc c.template_locales)

unfoldable pub or_text : String → Option String → String
or_text body none = body
or_text body (some b) = b

-- The body that ResolveLocaleContent gives.
unfoldable pub resolve_locale_body : Campaign → String → String
unfolding try_locale or_text
resolve_locale_body c locale = elim (try_locale c locale) [
  | some b ↦ b
  | none ↦
      if str_eq c.default_locale "" || str_eq c.default_locale locale
      then c.template_body
      else or_text c.template_body (try_locale c c.default_locale)
]

-- `m[k]`, the zero value for a missing key.
unfoldable pub text_at : String → List (String × String) → String
unfolding find or_text
text_at k m = or_text "" (find k m)

unfoldable pub or_entries : Option (List (String × String)) → List (String × String)
or_entries none = []
or_entries (some m) = m

-- MergeExtra: the user's entries over the campaign's.
unfoldable pub merge_extra :
    List (String × String) → List (String × String) → List (String × String)
merge_extra campaign user = user ++ campaign

-- The user's channels in the document, or the campaign's.
unfoldable pub channels_of : List ChannelType → Option (List ChannelType) → List ChannelType
channels_of task none = task
channels_of task (some []) = task
channels_of task (some (c ∷ cs)) = c ∷ cs

unfoldable pub is_strategy : ChannelMode → Bool
is_strategy ChannelMode.conditional = true
is_strategy ChannelMode.cost_priority = true
is_strategy _ = false

unfoldable pub message_mode : ChannelMode → ℕ → ChannelMode
unfolding is_strategy
message_mode mode n = if leb n 1 && not (is_strategy mode) then ChannelMode.single else mode

-- One message; a user with no channel gets none.
unfoldable pub message_over :
    Campaign → SubTask → SubPayload → String → List ChannelType → Option PushMessage
message_over c st p uid [] = none
message_over c st p uid (ch ∷ chs) = some (record {
  main_task_id = st.main_task_id;
  sub_task_id = st.id;
  user_id = uid;
  body = resolve_locale_body c (text_at uid p.locales);
  channel = ch;
  channels = ch ∷ chs;
  channel_mode = message_mode (effective_channel_mode c) (length (ch ∷ chs));
  biz_scene = c.biz_scene;
  topic = c.topic;
  priority = normalize c.priority;
  timezone = text_at uid p.timezones;
  expire_at = c.expire_at;
  max_fallback = c.max_fallback;
  routes = c.channel_routes;
  costs = c.channel_costs;
  strict_vars = c.strict_vars;
  experiment_group =
      text_at "experiment_group" (merge_extra c.payload (or_entries (find uid p.extras)));
})

-- `continue`, or `append`.
unfoldable pub put_message : Option PushMessage → List PushMessage → List PushMessage
put_message none ms = ms
put_message (some m) ms = m ∷ ms

-- The loop over the users of the document.
unfoldable pub build_messages : Campaign → SubTask → SubPayload → List String → List PushMessage
build_messages c st p [] = []
build_messages c st p (uid ∷ uids) =
    put_message (message_over c st p uid (channels_of (channel_list c) (find uid p.channels)))
      (build_messages c st p uids)
