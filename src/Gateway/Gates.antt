-- ===== src/Gateway/Gates.antt =====
-- internal/push/gateway.go: what Handle has checked when it calls a sender.
use startlink.Base.{
  ℕ, Bool, true, false, List, Option, none, some, ◌≡◌, ◌≢◌, refl, ◌∙◌, ◌⊎◌, inl, inr, Bool-cases,
}
use startlink.Domain.Status.{TaskStatus}
use startlink.Domain.Schedule.{SendWindow, in_send_windows}
use startlink.Gateway.Services.{Services, World, PushMessage, Outcome, tick}
use startlink.Gateway.Snapshot.{SnapReply, snap, unavailable, load_main_snap}
use startlink.Gateway.Checks.{in_platform_quiet_hours, in_user_quiet_hours}
use startlink.Gateway.Handler.{
  has_expired, after_user_quiet, after_clock, unless_expired, after_status, handle,
}
use startlink.Gateway.Calls.{
  load_main_snap-sent, mark_cancelled-sent, mark_expired-sent, in_user_quiet_hours-sent,
}

-- The minute of the day at which the windows are read, in the time zone of the message.
abbrev pub minute : Services → PushMessage → World → ℕ
minute s m w = s.minute_of_day m.timezone (s.clock w.calls)

-- The message may be sent after the status was read as `snap status windows`: the status is neither
-- cancelled nor paused, the message has not expired, the time is in a window of the task, and it
-- is quiet neither for the platform nor for the user.
abbrev pub MaySend : Services → PushMessage → SnapReply → World → Type 0
MaySend s m unavailable w = ⊥
MaySend s m (snap status windows) w =
    (status ≢ TaskStatus.cancelled)
    × (status ≢ TaskStatus.paused)
    × (has_expired m.expire_at (s.clock w.calls) ≡ false)
    × (in_send_windows windows (minute s m w) ≡ true)
    × (in_platform_quiet_hours s.freq m.biz_scene (minute s m w) ≡ false)
    × ((in_user_quiet_hours s m (tick w)).0 ≡ some false)

module _ (s : Services) (arrival : List Outcome → List Outcome) (m : PushMessage) where
  after_user_quiet-sends :
      (q : Option Bool) (w : World)
      → ((after_user_quiet s arrival m q w).1.sent ≡ w.sent) ⊎ (q ≡ some false)
  unfolding after_user_quiet
  after_user_quiet-sends none w = inl refl
  after_user_quiet-sends (some true) w = inl refl
  after_user_quiet-sends (some false) w = inr refl

  after_clock-sends :
      (windows : List SendWindow) (mins : ℕ) (w : World)
      → ((after_clock s arrival m windows mins w).1.sent ≡ w.sent)
        ⊎ ((in_send_windows windows mins ≡ true)
            × (in_platform_quiet_hours s.freq m.biz_scene mins ≡ false)
            × ((in_user_quiet_hours s m w).0 ≡ some false))
  unfolding after_clock
  after_clock-sends windows mins w = elim (Bool-cases (in_send_windows windows mins)) [
    | inr out ↦ rw out (inl refl)
    | inl inside ↦ elim (Bool-cases (in_platform_quiet_hours s.freq m.biz_scene mins)) [
      | inl quiet ↦ rw (inside, quiet) (inl refl)
      | inr awake ↦
          let q = in_user_quiet_hours s m w in
          elim (after_user_quiet-sends q.0 q.1) [
            | inl e ↦ inl (rw (inside, awake) (e ∙ in_user_quiet_hours-sent s m w))
            | inr e ↦ inr (inside, awake, e)
          ]
    ]
  ]

  unless_expired-sends :
      (windows : List SendWindow) (w : World)
      → ((unless_expired s arrival m windows w).1.sent ≡ w.sent)
        ⊎ ((has_expired m.expire_at (s.clock w.calls) ≡ false)
            × (in_send_windows windows (minute s m w) ≡ true)
            × (in_platform_quiet_hours s.freq m.biz_scene (minute s m w) ≡ false)
            × ((in_user_quiet_hours s m (tick w)).0 ≡ some false))
  unfolding unless_expired
  unless_expired-sends windows w =
      let later : World = tick w in
      let ticked : later.sent ≡ w.sent = unfold tick in refl in
      elim (Bool-cases (has_expired m.expire_at (s.clock w.calls))) [
        | inl over ↦ inl (rw over (mark_expired-sent s m later ∙ ticked))
        | inr alive ↦ elim (after_clock-sends windows (minute s m w) later) [
          | inl e ↦ inl (rw alive (e ∙ ticked))
          | inr (inside, awake, user) ↦ inr (alive, inside, awake, user)
        ]
      ]

  after_status-sends :
      (r : SnapReply) (w : World)
      → ((after_status s arrival m r w).1.sent ≡ w.sent) ⊎ MaySend s m r w
  unfolding after_status
  after_status-sends unavailable w = inl refl
  after_status-sends (snap TaskStatus.cancelled windows) w =
      inl (mark_cancelled-sent s m m.channel m.body w)
  after_status-sends (snap TaskStatus.paused windows) w = inl refl
  after_status-sends (snap _ windows) w = elim (unless_expired-sends windows w) [
    | inl e ↦ inl e
    | inr (alive, inside, awake, user) ↦ inr ((λ e. cc), (λ e. cc), alive, inside, awake, user)
  ]

-- Handle calls no sender; or the status that it read lets the message be sent: neither cancelled nor
-- paused, the message not expired, the time in a window of the task, and quiet neither for the
-- platform nor for the user.
pub handle-MaySend :
    (s : Services) (arrival : List Outcome → List Outcome) (m : PushMessage) (w : World)
    → ((handle s arrival m w).1.sent ≡ w.sent)
      ⊎ MaySend s m
          (load_main_snap s false m.main_task_id w).0
          (load_main_snap s false m.main_task_id w).1
unfolding handle
handle-MaySend s arrival m w =
    let r = load_main_snap s false m.main_task_id w in
    elim (after_status-sends s arrival m r.0 r.1) [
      | inl e ↦ inl (e ∙ load_main_snap-sent s false m.main_task_id w)
      | inr open_now ↦ inr open_now
    ]
