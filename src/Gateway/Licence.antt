-- ===== src/Gateway/Licence.antt =====
-- internal/push/gateway.go: what sendOne has checked when it calls a sender.
use startlink.Base.{
  ℕ, suc, true, false, ◌&&◌, List, Option, none, some, ◌≡◌, refl, ◌∙◌, ◌⊎◌, inl, inr, Bool-cases,
}
use startlink.Domain.Status.{PushStatus}
use startlink.Domain.Channel.{ChannelType}
use startlink.Records.Claim.{ClaimReply, claimed, duplicate, in_flight, claim_error}
use startlink.Gateway.Services.{Attempt, Services, World, PushMessage, SendError, set_status}
use startlink.Gateway.Snapshot.{check_main_gate}
use startlink.Gateway.Checks.{
  OptOutReply, passes, opted_out, undecided, check_unsubscribed, FreqReply, allowed, denied, unsure,
  allow_freq, wait_token,
}
use startlink.Gateway.Sending.{
  claim, known_delivered, after_gate, after_wait, after_freq, after_opt_out, after_claim, send_one,
}
use startlink.Gateway.Calls.{
  check_unsubscribed-sent, allow_freq-sent, wait_token-sent, check_main_gate-sent,
  known_delivered-sent, claim-sent, settle-claim-sent,
}
use startlink.Gateway.Attempting.{AtMost, AtMost-after, attempt, do_send-AtMost}

-- The states between the checks of sendOne.
module _ (s : Services) (m : PushMessage) (ch : ChannelType) (w : World) where
  abbrev pub at_claim : World
  at_claim = (known_delivered s w).1

  abbrev pub claim_reply : ClaimReply × World
  claim_reply = claim s m ch (s.content_of m ch).body at_claim

  abbrev pub opt_out_reply : OptOutReply × World
  opt_out_reply = check_unsubscribed s m ch claim_reply.1

  abbrev pub freq_reply_of : FreqReply × World
  freq_reply_of = allow_freq s m ch opt_out_reply.1

  abbrev pub token_reply : Option SendError × World
  token_reply = wait_token s freq_reply_of.1

  abbrev pub gate_reply : Option SendError × World
  gate_reply = check_main_gate s true m.main_task_id token_reply.1

-- All the checks passed, in their order, and the record of the delivery is claimed by this call.
pub record IsLicensed (s : Services) (m : PushMessage) (ch : ChannelType) (w : World) (id : ℕ)
    : Type 0 where
  pub complete : ((s.content_of m ch).broken && m.strict_vars) ≡ false
  pub fresh : (known_delivered s w).0 ≡ false
  pub owned : (claim_reply s m ch w).0 ≡ claimed id
  pub wanted : (opt_out_reply s m ch w).0 ≡ passes
  pub within_frequency : (freq_reply_of s m ch w).0 ≡ allowed
  pub within_rate : (token_reply s m ch w).0 ≡ none
  pub open_task : (gate_reply s m ch w).0 ≡ none

-- No call of a sender; or `P` holds, and there were at most `n` calls for the attempt `a`.
abbrev pub SendsOnlyIf : Type 0 → Attempt → ℕ → List Attempt → List Attempt → Type 0
SendsOnlyIf P a n xs ys = (ys ≡ xs) ⊎ (P × AtMost a n xs ys)

SendsOnlyIf-after :
    {P Q : Type 0} {a : Attempt} {n : ℕ} (xs ys zs : List Attempt)
    → ys ≡ xs
    → (P → Q)
    → SendsOnlyIf P a n ys zs
    → SendsOnlyIf Q a n xs zs
SendsOnlyIf-after xs ys zs e f (inl q) = inl (q ∙ e)
SendsOnlyIf-after xs ys zs e f (inr (p, c)) = inr (f p, AtMost-after xs ys zs e c)

module _ (s : Services) (m : PushMessage) (ch : ChannelType) (id : ℕ) where
  abbrev Calls : Type 0 → World → World → Type 0
  Calls P w w' = SendsOnlyIf P (attempt id ch) (suc (s.max_retry ch)) w.sent w'.sent

  after_gate-sends :
      (b : Option SendError) (w : World) → Calls (b ≡ none) w (after_gate s m ch id b w).1
  unfolding after_gate set_status
  after_gate-sends none w = inr (refl, do_send-AtMost s m ch id w)
  after_gate-sends (some SendError.main_cancelled) w = inl refl
  after_gate-sends (some _) w = inl refl

  after_wait-sends :
      (b : Option SendError) (w : World)
      → Calls
          ((b ≡ none) × ((check_main_gate s true m.main_task_id w).0 ≡ none))
          w
          (after_wait s m ch id b w).1
  unfolding after_wait set_status
  after_wait-sends (some e) w = inl refl
  after_wait-sends none w =
      let gate = check_main_gate s true m.main_task_id w in
      SendsOnlyIf-after w.sent gate.1.sent _ (check_main_gate-sent s true m.main_task_id w)
        (λ g. (refl, g)) (after_gate-sends gate.0 gate.1)

  after_freq-sends :
      (f : FreqReply) (w : World)
      → Calls
          ((f ≡ allowed)
            × ((wait_token s w).0 ≡ none)
            × ((check_main_gate s true m.main_task_id (wait_token s w).1).0 ≡ none))
          w
          (after_freq s m ch id f w).1
  unfolding after_freq set_status
  after_freq-sends denied w = inl refl
  after_freq-sends unsure w = inl refl
  after_freq-sends allowed w =
      let token = wait_token s w in
      SendsOnlyIf-after w.sent token.1.sent _ (wait_token-sent s w) (λ g. (refl, g.0, g.1))
        (after_wait-sends token.0 token.1)

module _ (s : Services) (m : PushMessage) (ch : ChannelType) (w : World) (id : ℕ) where
  -- What is left of a licence, seen at the state of the check.
  abbrev LeftAfterOptOut : Type 0
  LeftAfterOptOut =
      ((freq_reply_of s m ch w).0 ≡ allowed)
      × ((token_reply s m ch w).0 ≡ none)
      × ((gate_reply s m ch w).0 ≡ none)

  opt_out-sends :
      (o : OptOutReply)
      → Calls s m ch id
          ((o ≡ passes) × LeftAfterOptOut)
          (opt_out_reply s m ch w).1
          (after_opt_out s m ch id o (opt_out_reply s m ch w).1).1
  unfolding after_opt_out set_status
  opt_out-sends (opted_out reason) = inl refl
  opt_out-sends (undecided e) = inl refl
  opt_out-sends passes =
      let f = freq_reply_of s m ch w in
      SendsOnlyIf-after (opt_out_reply s m ch w).1.sent f.1.sent _
        (allow_freq-sent s m ch (opt_out_reply s m ch w).1) (λ g. (refl, g))
        (after_freq-sends s m ch id f.0 f.1)

-- No call of a sender from `w` to `w'`; or licensed calls for one record.
abbrev pub IsLicensedCall : Services → PushMessage → ChannelType → World → World → Type 0
IsLicensedCall s m ch w w' =
    (w'.sent ≡ w.sent)
    ⊎ ((id : ℕ) × IsLicensed s m ch w id
        × AtMost (attempt id ch) (suc (s.max_retry ch)) w.sent w'.sent)

claimed-sends :
    (s : Services) (m : PushMessage) (ch : ChannelType) (w : World)
    → ((s.content_of m ch).broken && m.strict_vars) ≡ false
    → (known_delivered s w).0 ≡ false
    → (c : ClaimReply) → (claim_reply s m ch w).0 ≡ c
    → IsLicensedCall s m ch w (after_claim s m ch c (claim_reply s m ch w).1).1
unfolding after_claim
claimed-sends s m ch w complete fresh claim_error e =
    inl (claim-sent s m ch (s.content_of m ch).body (at_claim s m ch w) ∙ known_delivered-sent s w)
claimed-sends s m ch w complete fresh (duplicate id) e =
    inl (claim-sent s m ch (s.content_of m ch).body (at_claim s m ch w) ∙ known_delivered-sent s w)
claimed-sends s m ch w complete fresh (in_flight id) e =
    inl (claim-sent s m ch (s.content_of m ch).body (at_claim s m ch w) ∙ known_delivered-sent s w)
claimed-sends s m ch w complete fresh (claimed id) e =
    let before =
      check_unsubscribed-sent s m ch (claim_reply s m ch w).1
      ∙ (claim-sent s m ch (s.content_of m ch).body (at_claim s m ch w)
          ∙ known_delivered-sent s w) in
    elim (opt_out-sends s m ch w id (opt_out_reply s m ch w).0) [
      | inl q ↦ inl (q ∙ before)
      | inr ((wanted, (freq, token, gate)), calls) ↦ inr (
        id,
        record {
          complete = complete;
          fresh = fresh;
          owned = e;
          wanted = wanted;
          within_frequency = freq;
          within_rate = token;
          open_task = gate;
        },
        AtMost-after w.sent (opt_out_reply s m ch w).1.sent _ before calls,
      )
    ]

-- sendOne calls no sender; or it has claimed a record, has passed every check (the template, the
-- delivery mark, the claim, the opt-out, the frequency, the token, the task's status, in this
-- order), and calls the channel's sender for that record, at most once more than the retries.
pub send_one-IsLicensed :
    (s : Services) (m : PushMessage) (ch : ChannelType) (w : World)
    → IsLicensedCall s m ch w (send_one s m ch w).1
unfolding send_one
send_one-IsLicensed s m ch w =
    let content = s.content_of m ch in
    let c = claim_reply s m ch w in
    elim (Bool-cases (content.broken && m.strict_vars)) [
      | inl broken ↦
          rw broken (
            inl (settle-claim-sent s PushStatus.failed "missing template vars" m ch content.body w))
      | inr complete ↦ elim (Bool-cases (known_delivered s w).0) [
        | inl known ↦ rw (complete, known) (inl (known_delivered-sent s w))
        | inr fresh ↦ rw (complete, fresh) (claimed-sends s m ch w complete fresh c.0 refl)
      ]
    ]
