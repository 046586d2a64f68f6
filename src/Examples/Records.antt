-- ===== src/Examples/Records.antt =====
-- internal/adapter/repo/task.go: two pushes to one user over one channel, and their receipts.
use startlink.Base.{
  ℕ, zero, suc, false, str_eq, count_where, not, ◌&&◌, ◌||◌, List, [], ◌∷◌, none, some, ◌≡◌, refl,
  arith, first_where,
}
use startlink.Domain.Status.{PushStatus, ReceiptEvent, delivered_ok, status_eq}
use startlink.Records.Rows.{PushRecord, PushReceipt}
use startlink.Records.Claim.{claimed, claim_delivery}
use startlink.Records.Writes.{update_record_delivery}
use startlink.Records.Keys.{IsKeyed, claim_delivery-IsKeyed}
use startlink.Records.Exclusion.{alone}
use startlink.Records.Race.{works, claim_between, claim_delivery-both_claimed}
use startlink.Records.Outcomes.{
  is_success, success_user_ids, list_failed_user_ids, exclusive_user_ids,
}
use startlink.Records.Outcomes.Counts.{one_if, has_row, user_outcomes_lem}
use startlink.Records.Forward.{
  by_id, LaterIn, update_record_delivery-LaterIn, update_record_delivery-overwrites,
}

abbrev push : PushRecord
push = record {
  id = 0;
  main_task_id = 7;
  sub_task_id = 70;
  user_id = "u1";
  channel = "email";
  content = "hello";
  status = PushStatus.queued;
  provider = "email";
  provider_id = none;
  error_msg = "";
  is_test = false;
  experiment_group = "";
  sent_at = none;
  updated_at = 0;
}

abbrev reserved_row : PushRecord
reserved_row = record push { id = 9; status = PushStatus.sending; updated_at = 100 }

claim_delivery-IsKeyed_example : IsKeyed (claim_delivery works alone 100 9 push []).1
claim_delivery-IsKeyed_example =
    claim_delivery-IsKeyed works alone 100 9 push [] (λ i rows h. h) (λ m u c. omega arith)

abbrev sent_row : PushRecord
sent_row = record reserved_row { status = PushStatus.delivered; sent_at = some 150 }

update_record_delivery-LaterIn_example :
    LaterIn
      (update_record_delivery works alone 300 9 PushStatus.queued "" "" "main task paused"
        (sent_row ∷ [])).1
      sent_row
update_record_delivery-LaterIn_example =
    update_record_delivery-LaterIn works 300 PushStatus.queued "" "" "main task paused"
      (sent_row ∷ []) sent_row refl (unfold delivered_ok in refl)

abbrev opened : PushReceipt
opened = record { push_record_id = 9; event = ReceiptEvent.clicked; raw_payload = "" }

-- A receipt that arrives between the read and the write.
abbrev receipt_between : ℕ → List PushRecord → List PushRecord
receipt_between zero rows = rows
receipt_between (suc i) rows = sent_row ∷ []

update_record_delivery-overwrites_example :
    (r' : PushRecord) × (first_where
        (by_id 9)
        (update_record_delivery works receipt_between 300 9 PushStatus.sent "smtp" "" ""
          (reserved_row ∷ [])).1
      ≡ some r')
    × (r'.status ≡ PushStatus.sent)
update_record_delivery-overwrites_example =
    update_record_delivery-overwrites works receipt_between 300 "smtp" (reserved_row ∷ [])
      reserved_row sent_row refl refl refl refl refl

abbrev failed_row : PushRecord
failed_row = record push { id = 9; status = PushStatus.failed; updated_at = 100 }

claim_delivery-both_claimed_example :
    ((claim_delivery works alone 250 11 push (failed_row ∷ [])).0 ≡ claimed 9)
    × ((claim_delivery works (claim_between 250 11 push) 240 10 push (failed_row ∷ [])).0
        ≡ claimed 9)
claim_delivery-both_claimed_example =
    claim_delivery-both_claimed 240 10 250 11 push failed_row (failed_row ∷ []) refl refl

-- Two channels of one user: the mail failed, the short message was sent.
abbrev two_channels : List PushRecord
two_channels = failed_row ∷ record push { id = 10; channel = "sms"; status = PushStatus.sent } ∷ []

user_outcomes_lem_example :
    (count_where (str_eq "u1") (success_user_ids 7 two_channels)
      ≡ one_if (has_row (λ s. is_success s.status) 7 "u1" two_channels))
    × (count_where (str_eq "u1") (list_failed_user_ids 7 two_channels)
        ≡ one_if (
            has_row (λ f. status_eq f.status PushStatus.failed) 7 "u1" two_channels
            && not (has_row (λ s. is_success s.status) 7 "u1" two_channels)))
    × (count_where (str_eq "u1") (exclusive_user_ids 7 PushStatus.suppressed two_channels)
        ≡ one_if (
            has_row (λ u. status_eq u.status PushStatus.suppressed) 7 "u1" two_channels
            && not (
                has_row (λ s. is_success s.status) 7 "u1" two_channels
                || has_row (λ s. status_eq s.status PushStatus.failed) 7 "u1" two_channels)))
user_outcomes_lem_example = user_outcomes_lem 7 PushStatus.suppressed "u1" two_channels
