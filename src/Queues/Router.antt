-- ===== src/Queues/Router.antt =====
-- internal/adapter/mq/priority_router.go: Publish, over two queues that may refuse what they are given.
use startlink.Base.{
  Bool, true, false, not, List, [], ◌∷◌, ◌++◌, all_where, if◌then◌else◌, ◌≡◌, refl, sym, ap, ◌⊎◌,
  inl, inr,
}
use startlink.Domain.Priority.{is_high}
use startlink.Gateway.Services.{PushMessage}

-- What the two queues were given so far, and whether they refuse.
pub record PriorityRouter : Type 0 where
  pub high : List PushMessage
  pub normal : List PushMessage
  pub high_fails : Bool
  pub normal_fails : Bool

-- `if len(msgs) > 0 { if err := q.Publish(ctx, msgs); err != nil { return err } }`: was there no error,
-- and what the queue was given.
unfoldable pub publish_to : Bool → List PushMessage → List PushMessage → Bool × List PushMessage
publish_to fails [] queue = (true, queue)
publish_to fails (m ∷ ms) queue = if fails then (false, queue) else (true, queue ++ (m ∷ ms))

unfoldable pub publish_normal : List PushMessage → PriorityRouter → Bool × PriorityRouter
unfolding publish_to
publish_normal msgs r =
    let p = publish_to r.normal_fails msgs r.normal in (p.0, record r { normal = p.1 })

unfoldable pub after_high :
    List PushMessage → PriorityRouter → Bool × List PushMessage → Bool × PriorityRouter
unfolding publish_normal
after_high msgs r (true, high) = publish_normal msgs (record r { high = high })
after_high msgs r (false, high) = (false, record r { high = high })

-- Publish
unfoldable pub publish : List PushMessage → PriorityRouter → Bool × PriorityRouter
unfolding publish_to after_high is_high
publish msgs r =
    after_high (all_where (λ m. not (is_high m.priority)) msgs) r
      (publish_to r.high_fails (all_where (λ m. is_high m.priority) msgs) r.high)

append-nil : (xs : List PushMessage) → xs ++ [] ≡ xs
append-nil [] = refl
append-nil (x ∷ xs) = ap (λ ys. x ∷ ys) (append-nil xs)

publish_to-cases :
    (fails : Bool) (msgs queue : List PushMessage)
    → (publish_to fails msgs queue ≡ (true, queue ++ msgs))
      ⊎ (publish_to fails msgs queue ≡ (false, queue))
unfolding publish_to
publish_to-cases fails [] queue = inl (ap (λ q. (true, q)) (sym (append-nil queue)))
publish_to-cases true (m ∷ ms) queue = inr refl
publish_to-cases false (m ∷ ms) queue = inl refl

-- What the two queues got: all of their own, or nothing of the normal messages.
abbrev Splits : List PushMessage → PriorityRouter → Bool × PriorityRouter → Type 0
Splits msgs r (true, r') =
    (r'.high ≡ r.high ++ all_where (λ m. is_high m.priority) msgs)
    × (r'.normal ≡ r.normal ++ all_where (λ m. not (is_high m.priority)) msgs)
Splits msgs r (false, r') =
    (r'.normal ≡ r.normal)
    × ((r'.high ≡ r.high) ⊎ (r'.high ≡ r.high ++ all_where (λ m. is_high m.priority) msgs))

-- Where Publish gives no error, each queue was given the messages of its priority, in their order;
-- where it gives one, the normal queue was given nothing, and the high one all of its own or nothing.
publish-Splits : (msgs : List PushMessage) (r : PriorityRouter) → Splits msgs r (publish msgs r)
unfolding publish after_high publish_normal
publish-Splits msgs r =
    elim (publish_to-cases r.high_fails (all_where (λ m. is_high m.priority) msgs) r.high) [
      | inl high ↦
          elim (publish_to-cases r.normal_fails (all_where (λ m. not (is_high m.priority)) msgs)
            r.normal) [
              | inl normal ↦ rw (high, normal) (refl, refl)
              | inr normal ↦ rw (high, normal) (refl, inr refl)
            ]
      | inr high ↦ rw high (refl, inl refl)
    ]
