-- ===== src/Gateway/Budget.antt =====
-- internal/push/gateway.go: how often the senders are called for one message.
use startlink.Base.{
  ℕ, zero, suc, ◌+◌, ◌≤◌, Bool, true, false, List, [], ◌∷◌, Option, none, some, length, take, ap,
  inl, inr, arith,
}
use startlink.Domain.Channel.{ChannelType, ChannelMode}
use startlink.Domain.Status.{TaskStatus}
use startlink.Domain.Schedule.{SendWindow}
use startlink.Gateway.Services.{
  Services, World, PushMessage, SendError, Attempt, Outcome, tick, resolve_send_channels,
  effective_mode,
}
use startlink.Gateway.Snapshot.{SnapReply, snap, unavailable, check_main_gate, load_main_snap}
use startlink.Gateway.Checks.{in_user_quiet_hours}
use startlink.Gateway.Sending.{send_one}
use startlink.Gateway.Modes.{
  Turn, return, go_on, turn_after, after_turn, try_channel, fallback_from, cut_chain, send_fallback,
  send_each, send_parallel, send_all_success,
}
use startlink.Gateway.Handler.{
  send_single, send_by_mode, dispatch, after_user_quiet, after_clock, unless_expired, after_status,
  handle,
}
use startlink.Gateway.Calls.{
  check_main_gate-sent, load_main_snap-sent, mark_cancelled-sent, mark_expired-sent,
  in_user_quiet_hours-sent,
}
use startlink.Gateway.Attempting.{AtMost, same, one_more}
use startlink.Gateway.Licence.{send_one-IsLicensed}

-- One attempt and the retries for each channel.
abbrev pub budget : Services → List ChannelType → ℕ
budget s [] = 0
budget s (ch ∷ chs) = suc (s.max_retry ch) + budget s chs

-- At most `n` calls of senders from `w` to `w'`.
abbrev pub IsWithin : ℕ → World → World → Type 0
IsWithin n w w' = length w'.sent ≤ length w.sent + n

length-AtMost :
    {a : Attempt} {n : ℕ} {xs ys : List Attempt} → AtMost a n xs ys → length ys ≤ length xs + n
length-AtMost (same e) = ground (arith, e)
length-AtMost (one_more p) = omega (arith, length-AtMost p)

module _ (s : Services) (m : PushMessage) where
  send_one-IsWithin :
      (ch : ChannelType) (w : World) → IsWithin (suc (s.max_retry ch)) w (send_one s m ch w).1
  send_one-IsWithin ch w = elim (send_one-IsLicensed s m ch w) [
    | inl e ↦ ground (arith, e)
    | inr (id, licence, calls) ↦ length-AtMost calls
  ]

  send_each-IsWithin :
      (chs : List ChannelType) (w : World) → IsWithin (budget s chs) w (send_each s m chs w).1
  unfolding send_each
  send_each-IsWithin [] w = omega arith
  send_each-IsWithin (ch ∷ chs) w =
      let o = send_one s m ch w in omega (arith, send_one-IsWithin ch w, send_each-IsWithin chs o.1)

  after_turn-IsWithin :
      (n : ℕ) (rest : Option SendError → Bool → World → Option SendError × World) (turn : Turn)
      (w : World)
      → ((last : Option SendError) (b : Bool) → IsWithin n w (rest last b w).1)
      → IsWithin n w (after_turn rest turn w).1
  unfolding after_turn
  after_turn-IsWithin n rest (return e) w k = omega arith
  after_turn-IsWithin n rest (go_on last b) w k = k last b

  try_channel-IsWithin :
      (n : ℕ) (ch : ChannelType) (rest : Option SendError → Bool → World → Option SendError × World)
      (gate last : Option SendError) (b : Bool) (w : World)
      → ((last : Option SendError) (b : Bool) (w : World) → IsWithin n w (rest last b w).1)
      → IsWithin (suc (s.max_retry ch) + n) w (try_channel s m ch rest gate last b w).1
  unfolding try_channel
  try_channel-IsWithin n ch rest (some SendError.main_cancelled) last b w k =
      let e = mark_cancelled-sent s m ch (s.content_of m ch).body w in omega (arith, ap length e)
  try_channel-IsWithin n ch rest (some _) last b w k = omega arith
  try_channel-IsWithin n ch rest none last b w k =
      let o = send_one s m ch w in
      omega (
        arith,
        send_one-IsWithin ch w,
        after_turn-IsWithin n rest (turn_after o.0 last b) o.1 (λ last' b'. k last' b' o.1),
      )

  fallback_from-IsWithin :
      (chs : List ChannelType) (force : Bool) (last : Option SendError) (b : Bool) (w : World)
      → IsWithin (budget s chs) w (fallback_from s m chs force last b w).1
  unfolding fallback_from
  fallback_from-IsWithin [] force last b w = omega arith
  fallback_from-IsWithin (ch ∷ chs) force last b w =
      let gate = check_main_gate s force m.main_task_id w in
      omega (
        arith,
        ap length (check_main_gate-sent s force m.main_task_id w),
        try_channel-IsWithin (budget s chs) ch (fallback_from s m chs true) gate.0 last b gate.1
            (fallback_from-IsWithin chs true),
      )

  budget-take : (n : ℕ) (chs : List ChannelType) → budget s (take n chs) ≤ budget s chs
  budget-take zero chs = omega arith
  budget-take (suc n) [] = omega arith
  budget-take (suc n) (ch ∷ chs) = omega (arith, budget-take n chs)

  budget-cut_chain : (n : ℕ) (chs : List ChannelType) → budget s (cut_chain n chs) ≤ budget s chs
  unfolding cut_chain
  budget-cut_chain n chs = ground (arith, budget-take (n + 1) chs)

  send_fallback-IsWithin :
      (chs : List ChannelType) (w : World) → IsWithin (budget s chs) w (send_fallback s m chs w).1
  unfolding send_fallback
  send_fallback-IsWithin chs w = omega (
    arith,
    budget-cut_chain m.max_fallback chs,
    fallback_from-IsWithin (cut_chain m.max_fallback chs) false none false w,
  )

module _ (s : Services) (arrival : List Outcome → List Outcome) (m : PushMessage) where
  send_by_mode-IsWithin :
      (mode : ChannelMode) (chs : List ChannelType) (w : World)
      → IsWithin (budget s chs) w (send_by_mode s arrival m mode chs w).1
  unfolding send_by_mode send_single send_parallel send_all_success
  send_by_mode-IsWithin mode [] w = omega arith
  send_by_mode-IsWithin ChannelMode.parallel (c ∷ cs) w = send_each-IsWithin s m (c ∷ cs) w
  send_by_mode-IsWithin ChannelMode.all_success (c ∷ cs) w = send_each-IsWithin s m (c ∷ cs) w
  send_by_mode-IsWithin ChannelMode.fallback (c ∷ cs) w = send_fallback-IsWithin s m (c ∷ cs) w
  send_by_mode-IsWithin ChannelMode.cost_priority (c ∷ cs) w = send_fallback-IsWithin s m (c ∷ cs) w
  send_by_mode-IsWithin ChannelMode.conditional (c ∷ []) w =
      omega (arith, send_one-IsWithin s m c w)
  send_by_mode-IsWithin ChannelMode.conditional (c ∷ d ∷ cs) w =
      send_fallback-IsWithin s m (c ∷ d ∷ cs) w
  send_by_mode-IsWithin _ (c ∷ cs) w = omega (arith, send_one-IsWithin s m c w)

  abbrev allowance : ℕ
  allowance = budget s (resolve_send_channels (s.condition_holds m) m)

  after_user_quiet-IsWithin :
      (q : Option Bool) (w : World) → IsWithin allowance w (after_user_quiet s arrival m q w).1
  unfolding after_user_quiet dispatch
  after_user_quiet-IsWithin none w = omega arith
  after_user_quiet-IsWithin (some true) w = omega arith
  after_user_quiet-IsWithin (some false) w =
      send_by_mode-IsWithin (effective_mode m) (resolve_send_channels (s.condition_holds m) m) w

  after_clock-IsWithin :
      (windows : List SendWindow) (mins : ℕ) (w : World)
      → IsWithin allowance w (after_clock s arrival m windows mins w).1
  unfolding after_clock
  after_clock-IsWithin windows mins w =
      let q = in_user_quiet_hours s m w in
      ground (arith, ap length (in_user_quiet_hours-sent s m w), after_user_quiet-IsWithin q.0 q.1)

  unless_expired-IsWithin :
      (windows : List SendWindow) (w : World)
      → IsWithin allowance w (unless_expired s arrival m windows w).1
  unfolding unless_expired tick
  unless_expired-IsWithin windows w =
      let mins = s.minute_of_day m.timezone (s.clock w.calls) in
      ground (
        arith,
        ap length (mark_expired-sent s m (tick w)),
        after_clock-IsWithin windows mins (tick w),
      )

  after_status-IsWithin :
      (r : SnapReply) (w : World) → IsWithin allowance w (after_status s arrival m r w).1
  unfolding after_status
  after_status-IsWithin unavailable w = omega arith
  after_status-IsWithin (snap TaskStatus.cancelled windows) w =
      omega (arith, ap length (mark_cancelled-sent s m m.channel m.body w))
  after_status-IsWithin (snap TaskStatus.paused windows) w = omega arith
  after_status-IsWithin (snap _ windows) w = unless_expired-IsWithin windows w

-- For one message Handle calls senders at most as often as its channels allow: one attempt and the
-- configured retries for each channel that the strategy resolves, in every mode.
pub handle-IsWithin :
    (s : Services) (arrival : List Outcome → List Outcome) (m : PushMessage) (w : World)
    → IsWithin (budget s (resolve_send_channels (s.condition_holds m) m)) w (handle s arrival m w).1
unfolding handle
handle-IsWithin s arrival m w =
    let r = load_main_snap s false m.main_task_id w in
    omega (
      arith,
      ap length (load_main_snap-sent s false m.main_task_id w),
      after_status-IsWithin s arrival m r.0 r.1,
    )
