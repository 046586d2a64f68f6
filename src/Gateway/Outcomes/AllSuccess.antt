-- ===== src/Gateway/Outcomes/AllSuccess.antt =====
-- internal/push/gateway.go: the verdict of classifyAllSuccessOutcomes.
use startlink.Base.{
  String, Bool, true, false, ◌||◌, List, [], ◌∷◌, Option, none, some, any, if◌then◌else◌, ◌≡◌, refl,
  inl, inr, arith, Bool-cases, Option-cases,
}
use startlink.Gateway.Services.{SendError, Outcome}
use startlink.Gateway.Checks.{is_retryable_send_err}
use startlink.Gateway.Modes.{
  is_suppressed, all_success_from, classify_all_success_outcomes, either_err,
}
use startlink.Gateway.Outcomes.{
  Kind, kind, failure, silent, Verdict, acknowledged, redelivered, failed, verdict, is_retry,
}

-- A channel that failed, or that was stopped with no error.
abbrev pub is_lost : Kind → Bool
is_lost failure = true
is_lost silent = true
is_lost _ = false

abbrev pub all_success_spec : List Outcome → Verdict
all_success_spec os =
    if any (λ o. is_retry (kind o)) os
    then redelivered
    else (if any (λ o. is_lost (kind o)) os then failed else acknowledged)

abbrev choose : Bool → Bool → Verdict
choose retry lost = if retry then redelivered else (if lost then failed else acknowledged)

abbrev has : Option SendError → Bool
has none = false
has (some e) = true

abbrev IsKind : Bool → Option SendError → Type 0
IsKind b o = (e : SendError) → o ≡ some e → is_retryable_send_err e ≡ b

end-verdict :
    (last retry : Option SendError)
    → IsKind false last
    → IsKind true retry
    → verdict (either_err retry last) ≡ choose (has retry) (has last)
unfolding either_err
end-verdict last (some e) l r = ground (arith, r e refl)
end-verdict (some e) none l r = ground (arith, l e refl)
end-verdict none none l r = refl

IsKind-other : (text : String) → IsKind false (some (SendError.other text))
unfolding is_retryable_send_err
IsKind-other text e h = ground arith

all_success_from-verdict :
    (os : List Outcome) (last retry : Option SendError)
    → IsKind false last
    → IsKind true retry
    → verdict (all_success_from os last retry)
      ≡ choose
          (has retry || any (λ o. is_retry (kind o)) os)
          (has last || any (λ o. is_lost (kind o)) os)
unfolding all_success_from
all_success_from-verdict [] last retry l r = ground (arith, end-verdict last retry l r)
all_success_from-verdict (o ∷ os) last retry l r = elim (Bool-cases o.ok) [
  | inl good ↦ ground (arith, all_success_from-verdict os last retry l r)
  | inr bad ↦ elim (Option-cases o.err) [
    | inl no_err ↦ ground (
      arith,
      all_success_from-verdict os (some (SendError.other "all_success: channel failed")) retry
          (IsKind-other "all_success: channel failed") r,
    )
    | inr (e, some_e) ↦ elim (Bool-cases (is_suppressed e)) [
      | inl quiet ↦ ground (arith, all_success_from-verdict os last retry l r)
      | inr loud ↦ elim (Bool-cases (is_retryable_send_err e)) [
        | inl again ↦
            ground (arith, all_success_from-verdict os last (some e) l (λ e' h. ground arith))
        | inr never ↦
            ground (arith, all_success_from-verdict os (some e) retry (λ e' h. ground arith) r)
      ]
    ]
  ]
]

-- The all-success mode has the message redelivered if some channel may be tried again; else it fails
-- if some channel failed or was stopped; else, with every channel done or suppressed, it
-- acknowledges the message.
pub classify_all_success_outcomes_lem :
    (os : List Outcome) → verdict (classify_all_success_outcomes os) ≡ all_success_spec os
unfolding classify_all_success_outcomes
classify_all_success_outcomes_lem os = all_success_from-verdict os none none (λ e h. cc) (λ e h. cc)
