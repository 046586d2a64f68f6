-- ===== src/Gateway/Attempting.antt =====
-- internal/push/gateway.go: the number of calls of the sender that doSend makes.
use startlink.Base.{
  ℕ, zero, suc, Bool, true, false, ◌||◌, List, ◌∷◌, Option, none, some, ◌≡◌, refl, sym, ◌∙◌, inl,
  inr, arith, Bool-cases,
}
use startlink.Domain.Status.{PushStatus}
use startlink.Domain.Channel.{ChannelType}
use startlink.Gateway.Services.{
  Services, World, PushMessage, SendError, SendResult, Attempt, tick, set_status,
}
use startlink.Gateway.Snapshot.{load_main_snap, gate_of}
use startlink.Gateway.Attempts.{
  LoopEnd, after_send, left, succeeded, hopeless, send, leave_for, attempts, gated, send_last,
  backoff, retry_or_end, send_then, record_delivery, conclude, do_send,
}
use startlink.Gateway.Calls.{set_status-sent, load_main_snap-sent}

-- `ys` is `xs` after at most `n` calls of the sender, all of them for the attempt `a`.
pub data AtMost (a : Attempt) : ℕ → List Attempt → List Attempt → Type 0 where
  same : {n : ℕ} {xs ys : List Attempt} → ys ≡ xs → AtMost a n xs ys
  one_more : {n : ℕ} {xs ys : List Attempt} → AtMost a n (a ∷ xs) ys → AtMost a (suc n) xs ys

pub AtMost-after :
    {a : Attempt} {n : ℕ} (xs ys zs : List Attempt) → ys ≡ xs → AtMost a n ys zs → AtMost a n xs zs
AtMost-after xs ys zs e p = rw (sym e) p

pub AtMost-then :
    {a : Attempt} {n : ℕ} (xs ys zs : List Attempt) → AtMost a n xs ys → zs ≡ ys → AtMost a n xs zs
AtMost-then xs ys zs p e = rw e p

leave_for-sent :
    (s : Services) (id : ℕ) (e : SendError) (w : World) → (leave_for s id e w).1.sent ≡ w.sent
unfolding leave_for set_status
leave_for-sent s id SendError.main_unavailable w = refl
leave_for-sent s id SendError.main_cancelled w = refl
leave_for-sent s id _ w = refl

abbrev pub attempt : ℕ → ChannelType → Attempt
attempt id ch = record { record_id = id; channel = ch }

conclude-sent :
    (s : Services) (ch : ChannelType) (id : ℕ) (end : LoopEnd) (w : World)
    → (conclude s ch id end w).1.sent ≡ w.sent
unfolding conclude record_delivery
conclude-sent s ch id (left o) w = refl
conclude-sent s ch id (after_send (some r) none) w = ground arith
conclude-sent s ch id (after_send none none) w = refl
conclude-sent s ch id (after_send none (some e)) w = refl
conclude-sent s ch id (after_send (some r) (some e)) w = refl

module _ (s : Services) (ch : ChannelType) (id : ℕ) where
  gated-AtMost :
      (n : ℕ) (go : World → LoopEnd × World) (b : Option SendError) (xs : List Attempt) (w : World)
      → w.sent ≡ xs
      → ((w : World) → AtMost (attempt id ch) n w.sent (go w).1.sent)
      → AtMost (attempt id ch) n xs (gated s id go b w).1.sent
  unfolding gated
  gated-AtMost n go (some e) xs w before k = same (leave_for-sent s id e w ∙ before)
  gated-AtMost n go none xs w before k = AtMost-after xs w.sent _ before (k w)

  send_last-AtMost : (w : World) → AtMost (attempt id ch) 1 w.sent (send_last s ch id w).1.sent
  unfolding send_last send
  send_last-AtMost w = one_more (same refl)

  backoff-AtMost :
      (n : ℕ) (again : World → LoopEnd × World) (b : Option SendError) (w : World)
      → ((w : World) → AtMost (attempt id ch) n w.sent (again w).1.sent)
      → AtMost (attempt id ch) n w.sent (backoff again b w).1.sent
  unfolding backoff tick
  backoff-AtMost n again (some e) w k = same refl
  backoff-AtMost n again none w k = k (tick w)

  retry_or_end-AtMost :
      (n : ℕ) (again : World → LoopEnd × World) (a : Option SendResult × Option SendError)
      (w : World)
      → ((w : World) → AtMost (attempt id ch) n w.sent (again w).1.sent)
      → AtMost (attempt id ch) n w.sent (retry_or_end s again a w).1.sent
  unfolding retry_or_end
  retry_or_end-AtMost n again a w k = elim (Bool-cases (succeeded a || hopeless a)) [
    | inl stop ↦ rw stop (same refl)
    | inr on ↦ rw on (backoff-AtMost n again (s.interrupted_at w.calls) w k)
  ]

  send_then-AtMost :
      (n : ℕ) (again : World → LoopEnd × World) (w : World)
      → ((w : World) → AtMost (attempt id ch) n w.sent (again w).1.sent)
      → AtMost (attempt id ch) (suc n) w.sent (send_then s ch id again w).1.sent
  unfolding send_then send
  send_then-AtMost n again w k =
      one_more (retry_or_end-AtMost n again (s.send_at w.calls) (send s ch id w).1 k)

  attempts-AtMost :
      (m : PushMessage) (n : ℕ) (force : Bool) (w : World)
      → AtMost (attempt id ch) (suc n) w.sent (attempts s m ch id n force w).1.sent
  unfolding attempts
  attempts-AtMost m zero force w =
      let gate = load_main_snap s force m.main_task_id w in
      gated-AtMost 1 (send_last s ch id) (gate_of gate.0) w.sent gate.1
        (load_main_snap-sent s force m.main_task_id w) send_last-AtMost
  attempts-AtMost m (suc n) force w =
      let gate = load_main_snap s force m.main_task_id w in
      let again = attempts s m ch id n true in
      gated-AtMost (suc (suc n)) (send_then s ch id again) (gate_of gate.0) w.sent gate.1
        (load_main_snap-sent s force m.main_task_id w)
        (λ w'. send_then-AtMost (suc n) again w' (attempts-AtMost m n true))

-- doSend calls the sender of the channel at most once more than the retries that the channel is
-- configured with, each time for the claimed record.
pub do_send-AtMost :
    (s : Services) (m : PushMessage) (ch : ChannelType) (id : ℕ) (w : World)
    → AtMost (attempt id ch) (suc (s.max_retry ch)) w.sent (do_send s m ch id w).1.sent
unfolding do_send
do_send-AtMost s m ch id w = elim (Bool-cases (s.registered ch)) [
  | inl yes_registered ↦
      let end = attempts s m ch id (s.max_retry ch) false w in
      rw yes_registered (
        AtMost-then _ _ _ (attempts-AtMost s ch id m (s.max_retry ch) false w)
          (conclude-sent s ch id end.0 end.1))
  | inr not_registered ↦
      rw not_registered (same (set_status-sent s id PushStatus.unreachable "channel not found" w))
]
