-- ===== src/Scheduler/Split/Reported.antt =====
-- internal/scheduler/splitter.go: the outcome of Split, and how many pages it asks for.
use startlink.Base.{
  ℕ, ◌<◌, String, Bool, true, false, not, ◌&&◌, ◌||◌, List, [], ◌∷◌, Option, none, some, ◌==◌,
  Reply, ok, err, All, length, ◌≡◌, refl, ◌∙◌, arith, ◌⊎◌, inl, inr, Bool-cases,
}
use startlink.Domain.Status.{TaskStatus}
use startlink.Domain.Channel.{ChannelType}
use startlink.Domain.Priority.{normalize}
use startlink.Tasks.Rows.{MainTask, SubTask, task_eq}
use startlink.Scheduler.Campaign.{Campaign, channel_list}
use startlink.Scheduler.World.{Services, World, calls_of, tick, load_row, on_mains, on_subs, now_at}
use startlink.Scheduler.Splitter.{
  SplitError, was_cancelled, expired, no_excluder, exclude_failed, Progress, at_start, LoopEnd,
  stopped, done, cancel_subs, split_pages,
}
use startlink.Scheduler.Split.{
  SplitReply, split_done, split_failed, clear_lease, check_channels, check_over_capacity,
  after_meta, write_running, after_running, after_check, after_wrote, after_pages, with_excluded,
  after_exclude, with_lists, is_expired, split,
}
use startlink.Scheduler.Split.Targets.{users_in, Numbered, IsFor, Agrees, Ended, split_pages-Ended}

-- What the answer of Split says of the sub tasks.
abbrev pub Reports : SplitReply → List SubTask → Type 0
Reports (split_failed e) created = Unit
Reports (split_done total shards) created =
    (total ≡ users_in created) × (shards ≡ length created) × Numbered 0 created × (0 < shards)

-- The exclusion list that a campaign asks for.
abbrev pub Excludes : Services → Campaign → ℕ → List String → Type 0
Excludes s c call excluded =
    (c.has_exclude ≡ false) × (excluded ≡ [])
    ⊎ (c.has_exclude ≡ true) × (s.exclude_at call ≡ some excluded)

module _ (s : Services) (c : Campaign) where
  check_channels-created :
      (total : ℕ) (chs : List ChannelType) (w : World)
      → (check_channels s c total chs w).created ≡ w.created
  unfolding check_channels on_mains
  check_channels-created total [] w = refl
  check_channels-created total (ch ∷ chs) w =
      elim (Bool-cases (s.enforces ch && s.is_over ch (normalize c.priority) total && s.pauses)) [
        | inl e ↦ rw e refl
        | inr e ↦ rw e (check_channels-created total chs w)
      ]

  check_over_capacity-created :
      (total : ℕ) (w : World) → (check_over_capacity s c total w).created ≡ w.created
  unfolding check_over_capacity
  check_over_capacity-created total w = elim (Bool-cases (not s.has_limiter || total == 0)) [
    | inl e ↦ rw e refl
    | inr e ↦ rw e (check_channels-created total (channel_list c) w)
  ]

  module _ (excluded : List String) where
    abbrev pub Good : SplitReply × World → Type 0
    Good r = All (IsFor s c excluded) r.1.created × Reports r.0 r.1.created

    finished :
        (p : Progress) (w : World) (cr : List SubTask)
        → Agrees s c excluded p cr
        → p.wrote_any ≡ true
        → w.created ≡ cr
        → Good (split_done p.total p.shard, w)
    finished p w cr h k e =
        rw e (h.for_campaign, (h.users, h.shards, h.numbered, ground (arith, h.wrote, h.shards, k)))

    after_meta-Good :
        (p : Progress) (r : Reply Bool) (w : World)
        → Agrees s c excluded p w.created
        → p.wrote_any ≡ true
        → Good (after_meta s c p (r, w))
    unfolding after_meta
    after_meta-Good p err w h k = (h.for_campaign, tt)
    after_meta-Good p (ok b) w h k =
        finished p (check_over_capacity s c p.total (clear_lease s c.id w)) w.created h k (
          check_over_capacity-created p.total (clear_lease s c.id w)
          ∙ (unfold clear_lease on_mains in refl))

    after_running-Good :
        (p : Progress) (r : Reply Bool) (w : World)
        → Agrees s c excluded p w.created
        → p.wrote_any ≡ true
        → Good (after_running s c p (r, w))
    unfolding after_running on_mains
    after_running-Good p err w h k = (h.for_campaign, tt)
    after_running-Good p (ok b) w h k = after_meta-Good p _ _ h k

    after_check-Good :
        (main : MainTask) (p : Progress) (o : Option MainTask) (w : World)
        → Agrees s c excluded p w.created
        → p.wrote_any ≡ true
        → Good (after_check s c main p (o, w))
    unfolding after_check
    after_check-Good main p none w h k = (h.for_campaign, tt)
    after_check-Good main p (some m) w h k =
        elim (Bool-cases (task_eq m.status TaskStatus.cancelled)) [
          | inl e ↦ rw e (unfold cancel_subs on_subs in (h.for_campaign, tt))
          | inr e ↦ rw e (unfold write_running in after_running-Good p _ _ h k)
        ]

    after_wrote-Good :
        (main : MainTask) (p : Progress) (b : Bool) (w : World)
        → Agrees s c excluded p w.created
        → p.wrote_any ≡ b
        → Good (after_wrote s c main p b w)
    unfolding after_wrote load_row
    after_wrote-Good main p false w h k = (h.for_campaign, tt)
    after_wrote-Good main p true w h k = after_check-Good main p _ _ h k

    after_pages-Good :
        (main : MainTask) (r : LoopEnd × World)
        → Ended s c excluded r
        → Good (after_pages s c main r)
    unfolding after_pages
    after_pages-Good main (stopped e, w) h = (h, tt)
    after_pages-Good main (done p, w) h = after_wrote-Good main p p.wrote_any w h refl

    with_excluded-Good :
        (main : MainTask) (owner : String) (w : World)
        → w.created ≡ []
        → Good (with_excluded s c main owner excluded w)
    unfolding with_excluded
    with_excluded-Good main owner w h =
        after_pages-Good main (split_pages s c excluded owner s.max_pages at_start w)
          (split_pages-Ended s c excluded owner s.max_pages at_start w (rw h at_the_start))
      where
        at_the_start : Agrees s c excluded at_start []
        at_the_start = record {
          for_campaign = tt;
          users = refl;
          shards = refl;
          numbered = tt;
          wrote = refl;
        }

-- Split inserted nothing and returned an error.
abbrev pub Refused : SplitReply × World → Type 0
Refused r = (r.1.created ≡ []) × ((e : SplitError) × (r.0 ≡ split_failed e))

-- Split read an exclusion list, and what it inserted and reported goes by it.
abbrev pub Went : Services → Campaign → ℕ → SplitReply × World → Type 0
Went s c call r = (excluded : List String) × Excludes s c call excluded × Good s c excluded r

after_exclude-Went :
    (s : Services) (c : Campaign) (main : MainTask) (owner : String) (call : ℕ)
    (o : Option (List String)) (w : World)
    → w.created ≡ []
    → c.has_exclude ≡ true
    → s.exclude_at call ≡ o
    → Refused (after_exclude s c main owner o w) ⊎ Went s c call (after_exclude s c main owner o w)
unfolding after_exclude
after_exclude-Went s c main owner call none w h k e = inl (h, (exclude_failed, refl))
after_exclude-Went s c main owner call (some excluded) w h k e =
    inr (excluded, inr (k, e), with_excluded-Good s c excluded main owner w h)

with_lists-Went :
    (s : Services) (c : Campaign) (main : MainTask) (owner : String) (asks has : Bool) (w : World)
    → w.created ≡ []
    → c.has_exclude ≡ asks
    → Refused (with_lists s c main owner asks has w)
      ⊎ Went s c (calls_of w) (with_lists s c main owner asks has w)
unfolding with_lists
with_lists-Went s c main owner false has w h e =
    inr ([], inl (e, refl), with_excluded-Good s c [] main owner w h)
with_lists-Went s c main owner true false w h e = inl (h, (no_excluder, refl))
with_lists-Went s c main owner true true w h e =
    after_exclude-Went s c main owner (calls_of w) (s.exclude_at (calls_of w)) (tick w) h e refl

-- Whatever the services answer and other processes write, the sub tasks that one Split inserts
-- are the campaign's, and each holds just those users of a page that the audience resolver
-- answered that have an id, are not on the exclusion list that was read, are not in the control
-- group or sampled out, and share a channel with the campaign, in their order, and at least one;
-- and if Split returns no error, there is a sub task, the shards are numbered from 0 in order and
-- the two totals are those of the inserted sub tasks.
pub split-Good :
    (s : Services) (c : Campaign) (main : MainTask) (owner : String) (w : World)
    → w.created ≡ []
    → Refused (split s c main owner w) ⊎ Went s c (calls_of w) (split s c main owner w)
unfolding split
split-Good s c main owner w h = elim (Bool-cases (task_eq main.status TaskStatus.cancelled)) [
  | inl e ↦ rw e (inl (h, (was_cancelled, refl)))
  | inr e ↦ elim (Bool-cases (is_expired c.expire_at (now_at s w))) [
    | inl f ↦ rw (e, f) (inl (h, (expired, refl)))
    | inr f ↦ rw (e, f) (with_lists-Went s c main owner c.has_exclude s.has_excluder w h refl)
  ]
]
