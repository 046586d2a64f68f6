-- ===== src/Scheduler/Messages/Sent.antt =====
-- internal/scheduler/splitter.go and worker.go together: whom the messages of a sub task go to.
use startlink.Base.{
  ℕ, String, List, [], ◌∷◌, Option, none, some, All, ◌≡◌, refl, arith, inl, inr, ◌⊎◌,
}
use startlink.Domain.Channel.{ChannelType}
use startlink.Tasks.Rows.{SubTask, SubPayload, UserIds, document}
use startlink.Gateway.Services.{PushMessage}
use startlink.Scheduler.Campaign.{
  Campaign, TargetUser, AudiencePage, channel_list, intersect_channels, find,
}
use startlink.Scheduler.Batch.Chosen.{ids_for}
use startlink.Scheduler.World.{Services, World, calls_of}
use startlink.Tasks.Rows.{MainTask}
use startlink.Scheduler.Split.{split}
use startlink.Scheduler.Split.Reported.{split-Good, Excludes}
use startlink.Scheduler.Worker.Published.{messages_in}
use startlink.Scheduler.Split.Targets.{IsFor}
use startlink.Scheduler.Messages.{message_over, channels_of, put_message, build_messages}

ids_for-none :
    (c : Campaign) (excluded : List String) (us : List TargetUser)
    → channel_list c ≡ []
    → ids_for c excluded us ≡ []
unfolding ids_for intersect_channels
ids_for-none c excluded [] h = refl
ids_for-none c excluded (u ∷ us) h = rw h (ground (arith, ids_for-none c excluded us h))

-- The message is this sub task's, for this user.
abbrev pub IsMessage : SubTask → String → PushMessage → Type 0
IsMessage st uid m =
    (m.user_id ≡ uid) × (m.sub_task_id ≡ st.id) × (m.main_task_id ≡ st.main_task_id)

message_over-some :
    (c : Campaign) (st : SubTask) (p : SubPayload) (uid : String) (ch : ChannelType)
    (chs : List ChannelType) (o : Option (List ChannelType))
    → (m : PushMessage) × (message_over c st p uid (channels_of (ch ∷ chs) o) ≡ some m)
      × IsMessage st uid m
unfolding message_over channels_of
message_over-some c st p uid ch chs none = (_, refl, (refl, refl, refl))
message_over-some c st p uid ch chs (some []) = (_, refl, (refl, refl, refl))
message_over-some c st p uid ch chs (some (d ∷ ds)) = (_, refl, (refl, refl, refl))

-- A message for each of the ids, in their order.
abbrev pub ForEach : SubTask → List String → List PushMessage → Type 0
ForEach st [] [] = Unit
ForEach st (uid ∷ uids) (m ∷ ms) = IsMessage st uid m × ForEach st uids ms
ForEach st [] (m ∷ ms) = ⊥
ForEach st (uid ∷ uids) [] = ⊥

build_messages-ForEach :
    (c : Campaign) (st : SubTask) (p : SubPayload) (ch : ChannelType) (chs : List ChannelType)
    (uids : List String)
    → channel_list c ≡ ch ∷ chs
    → ForEach st uids (build_messages c st p uids)
unfolding build_messages put_message
build_messages-ForEach c st p ch chs [] h = tt
build_messages-ForEach c st p ch chs (uid ∷ uids) h =
    let one = message_over-some c st p uid ch chs (find uid p.channels) in
    rw (h, one.1) (one.2, build_messages-ForEach c st p ch chs uids h)

ids-ForEach :
    (c : Campaign) (excluded : List String) (us : List TargetUser) (st : SubTask) (p : SubPayload)
    (uids : List String)
    → uids ≡ ids_for c excluded us
    → (chs : List ChannelType) → channel_list c ≡ chs
    → ForEach st (ids_for c excluded us) (build_messages c st p uids)
ids-ForEach c excluded us st p uids e [] h =
    rw (e, ids_for-none c excluded us h) (unfold build_messages in tt)
ids-ForEach c excluded us st p uids e (ch ∷ chs) h =
    rw e (build_messages-ForEach c st p ch chs (ids_for c excluded us) h)

document-ForEach :
    (s : Services) (c : Campaign) (st : SubTask) (d : UserIds) (p : SubPayload) (uids : List String)
    → d ≡ document p
    → ForEach st uids (build_messages c st p p.user_ids)
    → ForEach st uids (messages_in s c st d)
document-ForEach s c st d p uids e h = rw e h

-- The users of a page that the campaign is for, and the messages of the sub task.
abbrev pub Reaches : Services → Campaign → List String → SubTask → Type 0
Reaches s c excluded st =
    (call : ℕ) × (token : String) × (page : AudiencePage) × (s.resolve_at call token ≡ some page)
    × ForEach st (ids_for c excluded page.users) (messages_in s c st st.user_ids)

IsFor-Reaches :
    (s : Services) (c : Campaign) (excluded : List String) (st : SubTask)
    → IsFor s c excluded st
    → Reaches s c excluded st
IsFor-Reaches s c excluded st h = (
  h.call,
  h.token,
  h.page,
  h.answered,
  document-ForEach s c st st.user_ids h.payload _ h.held (
      ids-ForEach c excluded h.page.users st h.payload h.payload.user_ids h.ids (channel_list c)
        refl),
)

All-Reaches :
    (s : Services) (c : Campaign) (excluded : List String) (ts : List SubTask)
    → All (IsFor s c excluded) ts
    → All (Reaches s c excluded) ts
All-Reaches s c excluded [] h = tt
All-Reaches s c excluded (t ∷ ts) h =
    (IsFor-Reaches s c excluded t h.0, All-Reaches s c excluded ts h.1)

-- From the audience to the queue: Split inserts nothing, or it read the campaign's exclusion list and
-- for each sub task that one Split inserts, the messages that a
-- worker makes of its document are one for each user of the page that the campaign is for, in
-- their order, with the keys of the sub task and of the campaign, and no other.
pub split-Reaches :
    (s : Services) (c : Campaign) (main : MainTask) (owner : String) (w : World)
    → w.created ≡ []
    → ((split s c main owner w).1.created ≡ [])
      ⊎ ((excluded : List String) × Excludes s c (calls_of w) excluded
          × All (Reaches s c excluded) (split s c main owner w).1.created)
split-Reaches s c main owner w h = elim (split-Good s c main owner w h) [
  | inl refused ↦ inl refused.0
  | inr (excluded, asked, good) ↦ inr (excluded, asked, All-Reaches s c excluded _ good.0)
]
