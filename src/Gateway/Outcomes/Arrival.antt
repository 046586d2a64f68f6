-- ===== src/Gateway/Outcomes/Arrival.antt =====
-- internal/push/gateway.go: sendParallel's verdict under any order of arrival.
use mathlib.Core.Bool.{Bool-set}
use mathlib.Core.Logic.{∥∥₁_elim}
use mathlib.Core.List.{Permᴰ}
use startlink.Base.{Bool, true, false, ◌||◌, List, any, ◌≡◌, refl, sym, ◌∙◌, Perm}
use startlink.Domain.Channel.{ChannelType}
use startlink.Gateway.Services.{Outcome, Services, PushMessage, World}
use startlink.Gateway.Modes.{send_each, send_parallel}
use startlink.Gateway.Outcomes.{
  kind, verdict, parallel_spec, is_success, is_retry, is_failure, is_suppression,
  classify_parallel_outcomes_lem,
}

or_swap : (a b c : Bool) → (a || (b || c)) ≡ (b || (a || c))
or_swap true true c = refl
or_swap true false c = refl
or_swap false b c = refl

any-Permᴰ {ℓ} :
    {A : Type ℓ} (test : A → Bool) {xs ys : List A} → Permᴰ xs ys → any test xs ≡ any test ys
any-Permᴰ test Permᴰ.nil = refl
any-Permᴰ test (Permᴰ.cons e p) = rw (e, any-Permᴰ test p) refl
any-Permᴰ test (Permᴰ.swap {a = a} {b = b} {l = l} e e') =
    rw (sym e, sym e') (or_swap (test a) (test b) (any test l))
any-Permᴰ test (Permᴰ.trans p q) = any-Permᴰ test p ∙ any-Permᴰ test q

any-Perm {ℓ} :
    {A : Type ℓ} (test : A → Bool) {xs ys : List A} → Perm xs ys → any test xs ≡ any test ys
any-Perm test p = ∥∥₁_elim p (Bool-set _ _) (any-Permᴰ test)

parallel_spec-Perm : (os ps : List Outcome) → Perm os ps → parallel_spec os ≡ parallel_spec ps
parallel_spec-Perm os ps p =
    rw
      (
        any-Perm (λ o. is_success (kind o)) p,
        any-Perm (λ o. is_retry (kind o)) p,
        any-Perm (λ o. is_failure (kind o)) p,
        any-Perm (λ o. is_suppression (kind o)) p,
      )
      refl

-- The parallel mode answers the queue by the outcomes of its sends alone: by what occurs among them,
-- in whatever order they arrive.
pub send_parallel-arrival :
    (s : Services) (arrival : List Outcome → List Outcome) (m : PushMessage)
    (chs : List ChannelType) (w : World)
    → Perm (arrival (send_each s m chs w).0) (send_each s m chs w).0
    → verdict (send_parallel s arrival m chs w).0 ≡ parallel_spec (send_each s m chs w).0
unfolding send_parallel
send_parallel-arrival s arrival m chs w p =
    classify_parallel_outcomes_lem (arrival (send_each s m chs w).0)
    ∙ parallel_spec-Perm (arrival (send_each s m chs w).0) (send_each s m chs w).0 p
