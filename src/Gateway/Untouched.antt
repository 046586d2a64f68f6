-- ===== src/Gateway/Untouched.antt =====
-- internal/push/gateway.go: the loop of the attempts writes no record of a delivery, unless it leaves
-- with no success.
use startlink.Base.{
  ℕ, zero, suc, Bool, true, false, ◌||◌, List, Option, none, some, ◌≡◌, refl, ◌∙◌, inl, inr, arith,
  Bool-cases,
}
use startlink.Domain.Channel.{ChannelType}
use startlink.Records.Rows.{PushRecord}
use startlink.Gateway.Services.{
  Services, World, PushMessage, SendError, CacheEntry, MainReply, found, missing, failing, tick,
}
use startlink.Gateway.Snapshot.{remember, fetch, cached_or_fetch, load_main_snap, gate_of}
use startlink.Gateway.Attempts.{
  LoopEnd, after_send, left, succeeded, hopeless, send, leave_for, gated, send_last, backoff,
  retry_or_end, send_then, attempts,
}

remember-records :
    (now id : ℕ) (r : MainReply) (w : World) → (remember now id r w).1.records ≡ w.records
unfolding remember
remember-records now id (found status windows) w = refl
remember-records now id missing w = refl
remember-records now id failing w = refl

cached_or_fetch-records :
    (s : Services) (now id : ℕ) (e : Option CacheEntry) (w : World)
    → (cached_or_fetch s now id e w).1.records ≡ w.records
unfolding cached_or_fetch fetch tick
cached_or_fetch-records s now id none w = remember-records now id (s.main_at w.calls) (tick w)
cached_or_fetch-records s now id (some e) w =
    ground (arith, remember-records now id (s.main_at w.calls) (tick w))

load_main_snap-records :
    (s : Services) (force : Bool) (id : ℕ) (w : World)
    → (load_main_snap s force id w).1.records ≡ w.records
unfolding load_main_snap fetch tick
load_main_snap-records s true id w =
    remember-records (s.clock w.calls) id (s.main_at (suc w.calls)) (tick (tick w))
load_main_snap-records s false id w = cached_or_fetch-records s (s.clock w.calls) id _ (tick w)

-- The loop leaves with no success, or the records are still `rows`.
abbrev pub EndsAt : List PushRecord → LoopEnd × World → Type 0
EndsAt rows (left o, w) = o.ok ≡ false
EndsAt rows (after_send r e, w) = w.records ≡ rows

module _ (s : Services) (ch : ChannelType) (id : ℕ) (rows : List PushRecord) where
  gated-EndsAt :
      (go : World → LoopEnd × World) (b : Option SendError) (w : World)
      → w.records ≡ rows
      → ((w : World) → w.records ≡ rows → EndsAt rows (go w))
      → EndsAt rows (gated s id go b w)
  unfolding gated leave_for
  gated-EndsAt go none w e k = k w e
  gated-EndsAt go (some SendError.main_unavailable) w e k = refl
  gated-EndsAt go (some SendError.main_cancelled) w e k = refl
  gated-EndsAt go (some _) w e k = refl

  send_last-EndsAt : (w : World) → w.records ≡ rows → EndsAt rows (send_last s ch id w)
  unfolding send_last send
  send_last-EndsAt w e = e

  backoff-EndsAt :
      (again : World → LoopEnd × World) (b : Option SendError) (w : World)
      → w.records ≡ rows
      → ((w : World) → w.records ≡ rows → EndsAt rows (again w))
      → EndsAt rows (backoff again b w)
  unfolding backoff tick
  backoff-EndsAt again (some x) w e k = refl
  backoff-EndsAt again none w e k = k (tick w) e

  send_then-EndsAt :
      (again : World → LoopEnd × World) (w : World)
      → w.records ≡ rows
      → ((w : World) → w.records ≡ rows → EndsAt rows (again w))
      → EndsAt rows (send_then s ch id again w)
  unfolding send_then send retry_or_end
  send_then-EndsAt again w e k =
      let answer = send s ch id w in
      elim (Bool-cases (succeeded answer.0 || hopeless answer.0)) [
        | inl stop ↦ rw stop e
        | inr on ↦ rw on (backoff-EndsAt again (s.interrupted_at answer.1.calls) answer.1 e k)
      ]

  pub attempts-EndsAt :
      (m : PushMessage) (n : ℕ) (force : Bool) (w : World)
      → w.records ≡ rows
      → EndsAt rows (attempts s m ch id n force w)
  unfolding attempts
  attempts-EndsAt m zero force w e =
      let gate = load_main_snap s force m.main_task_id w in
      gated-EndsAt (send_last s ch id) (gate_of gate.0) gate.1
        (load_main_snap-records s force m.main_task_id w ∙ e) send_last-EndsAt
  attempts-EndsAt m (suc n) force w e =
      let gate = load_main_snap s force m.main_task_id w in
      let again = attempts s m ch id n true in
      gated-EndsAt (send_then s ch id again) (gate_of gate.0) gate.1
        (load_main_snap-records s force m.main_task_id w ∙ e)
        (λ w' e'. send_then-EndsAt again w' e' (attempts-EndsAt m n true))
