-- ===== src/Gateway/Outcomes.antt =====
-- internal/push/gateway.go: the verdicts of the parallel modes do not depend on the order in which
-- the outcomes arrive.
pub mod Arrival
pub mod AllSuccess
use startlink.Base.{
  Bool, true, false, ◌||◌, List, [], ◌∷◌, Option, none, some, any, if◌then◌else◌, ◌≡◌, refl, ap,
  ◌∙◌, inl, inr, arith, Bool-cases, Option-cases,
}
use startlink.Gateway.Services.{SendError, Outcome}
use startlink.Gateway.Checks.{is_retryable_send_err}
use startlink.Gateway.Modes.{
  Tally, is_suppressed, tally, tally_one, tally_error, no_tally, parallel_verdict,
  classify_parallel_outcomes,
}

-- What an outcome is to the classification.
pub data Kind : Type 0 where
  success suppression retryable failure silent : Kind

abbrev pub error_kind : SendError → Kind
error_kind e =
    if is_suppressed e
    then suppression
    else (if is_retryable_send_err e then retryable else failure)

abbrev pub kind : Outcome → Kind
kind o = if o.ok then success else elim o.err [ none ↦ silent | some e ↦ error_kind e ]

abbrev pub is_success : Kind → Bool
is_success success = true
is_success _ = false

abbrev pub is_suppression : Kind → Bool
is_suppression suppression = true
is_suppression _ = false

abbrev pub is_retry : Kind → Bool
is_retry retryable = true
is_retry _ = false

abbrev pub is_failure : Kind → Bool
is_failure failure = true
is_failure _ = false

-- The verdict as the queue sees it: acknowledged, redelivered by a retryable error, or failed.
pub data Verdict : Type 0 where
  acknowledged redelivered failed : Verdict

abbrev pub verdict : Option SendError → Verdict
verdict none = acknowledged
verdict (some e) = if is_retryable_send_err e then redelivered else failed

-- The verdict of the parallel mode by what occurs among the outcomes.
abbrev pub parallel_spec : List Outcome → Verdict
parallel_spec os =
    if any (λ o. is_success (kind o)) os
    then acknowledged
    else (if any (λ o. is_retry (kind o)) os
        then redelivered
        else (if any (λ o. is_failure (kind o)) os
            then failed
            else (if any (λ o. is_suppression (kind o)) os then acknowledged else failed)))

abbrev is_set : Option SendError → Bool
is_set none = false
is_set (some e) = true

-- The deferred error is one to retry, and the last error is none.
record IsSound (t : Tally) : Type 0 where
  deferred : (e : SendError) → t.deferred_err ≡ some e → is_retryable_send_err e ≡ true
  last : (e : SendError) → t.last_err ≡ some e → is_retryable_send_err e ≡ false

-- How one outcome moves the four variables.
record Moved (o : Outcome) (t t' : Tally) : Type 0 where
  sound : IsSound t'
  ok : t'.any_ok ≡ (t.any_ok || is_success (kind o))
  suppressed : t'.any_suppressed ≡ (t.any_suppressed || is_suppression (kind o))
  retried : is_set t'.deferred_err ≡ (is_set t.deferred_err || is_retry (kind o))
  failed : is_set t'.last_err ≡ (is_set t.last_err || is_failure (kind o))

or-false : (b : Bool) → b ≡ (b || false)
or-false true = refl
or-false false = refl

or-true : (b : Bool) → true ≡ (b || true)
or-true true = refl
or-true false = refl

or_assoc : (a b c : Bool) → ((a || b) || c) ≡ (a || (b || c))
or_assoc true b c = refl
or_assoc false b c = refl

carry : (x y b c : Bool) {z : Bool} → y ≡ (x || b) → z ≡ (y || c) → z ≡ (x || (b || c))
carry x y b c p q = q ∙ (ap (λ d. d || c) p ∙ or_assoc x b c)

tally_error-Moved :
    (o : Outcome) (e : SendError) (t : Tally)
    → o.ok ≡ false
    → o.err ≡ some e
    → IsSound t
    → Moved o t (tally_error e t)
unfolding tally_error
tally_error-Moved o e t no_ok some_e v = record {
  sound = record {
    deferred = λ e' h. ground (arith, v.deferred e');
    last = λ e' h. ground (arith, v.last e');
  };
  ok = ground arith;
  suppressed = ground arith;
  retried = ground arith;
  failed = ground arith;
}

tally_one-Moved : (o : Outcome) (t : Tally) → IsSound t → Moved o t (tally_one o t)
unfolding tally_one
tally_one-Moved o t v = elim (Bool-cases o.ok) [
  | inl yes_ok ↦ rw yes_ok (record {
    sound = record { deferred = v.deferred; last = v.last };
    ok = ground arith;
    suppressed = ground arith;
    retried = ground arith;
    failed = ground arith;
  })
  | inr no_ok ↦ elim (Option-cases o.err) [
    | inl no_err ↦
        rw (no_ok, no_err)
          (record {
            sound = v;
            ok = ground arith;
            suppressed = ground arith;
            retried = ground arith;
            failed = ground arith;
          })
    | inr (e, some_e) ↦
        rw (no_ok, some_e) (tally_error-Moved (record { ok = false; err = some e }) e t refl refl v)
  ]
]

-- How a list of outcomes moves them.
record Summed (os : List Outcome) (t t' : Tally) : Type 0 where
  sound : IsSound t'
  ok : t'.any_ok ≡ (t.any_ok || any (λ o. is_success (kind o)) os)
  suppressed : t'.any_suppressed ≡ (t.any_suppressed || any (λ o. is_suppression (kind o)) os)
  retried : is_set t'.deferred_err ≡ (is_set t.deferred_err || any (λ o. is_retry (kind o)) os)
  failed : is_set t'.last_err ≡ (is_set t.last_err || any (λ o. is_failure (kind o)) os)

tally-Summed : (os : List Outcome) (t : Tally) → IsSound t → Summed os t (tally os t)
unfolding tally
tally-Summed [] t v = record {
  sound = v;
  ok = or-false t.any_ok;
  suppressed = or-false t.any_suppressed;
  retried = or-false (is_set t.deferred_err);
  failed = or-false (is_set t.last_err);
}
tally-Summed (o ∷ os) t v =
    let t' = tally_one o t in
    let one = tally_one-Moved o t v in
    let rest = tally-Summed os t' one.sound in
    record {
      sound = rest.sound;
      ok =
          carry t.any_ok t'.any_ok (is_success (kind o)) (any (λ o. is_success (kind o)) os) one.ok
            rest.ok;
      suppressed =
          carry t.any_suppressed t'.any_suppressed (is_suppression (kind o))
            (any (λ o. is_suppression (kind o)) os) one.suppressed rest.suppressed;
      retried =
          carry (is_set t.deferred_err) (is_set t'.deferred_err) (is_retry (kind o))
            (any (λ o. is_retry (kind o)) os) one.retried rest.retried;
      failed =
          carry (is_set t.last_err) (is_set t'.last_err) (is_failure (kind o))
            (any (λ o. is_failure (kind o)) os) one.failed rest.failed;
    }

parallel_verdict_lem :
    (t : Tally)
    → IsSound t
    → verdict (parallel_verdict t) ≡ (
        if t.any_ok
        then acknowledged
        else (if is_set t.deferred_err
            then redelivered
            else (if is_set t.last_err
                then failed
                else (if t.any_suppressed then acknowledged else failed))))
unfolding parallel_verdict is_retryable_send_err
parallel_verdict_lem t v = elim (Option-cases t.deferred_err) [
  | inr (e, d) ↦ ground (arith, v.deferred e d)
  | inl d ↦ elim (Option-cases t.last_err) [
    | inr (e, l) ↦ ground (arith, v.last e l)
    | inl l ↦ ground arith
  ]
]

-- The parallel mode acknowledges the message if some channel took it; else it has it redelivered if
-- some channel may be tried again; else it fails if some channel failed; else it acknowledges it if
-- some channel suppressed it, and fails if all the channels were stopped by a cancellation.
pub classify_parallel_outcomes_lem :
    (os : List Outcome) → verdict (classify_parallel_outcomes os) ≡ parallel_spec os
unfolding classify_parallel_outcomes
classify_parallel_outcomes_lem os =
    let nothing : IsSound no_tally = record { deferred = λ e h. cc; last = λ e h. cc } in
    let sum = tally-Summed os no_tally nothing in
    parallel_verdict_lem (tally os no_tally) sum.sound
    ∙ rw (sum.ok, sum.suppressed, sum.retried, sum.failed)
