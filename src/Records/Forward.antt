-- ===== src/Records/Forward.antt =====
-- internal/adapter/repo/task.go: UpdateRecordDelivery and ApplyReceipt move a record forward only.
use startlink.Base.{
  ℕ, ◌≤◌, String, Bool, true, false, List, some, ◌==◌, ◌≡◌, refl, ap, ◌∙◌, ◌⊎◌, inl, inr, arith,
  Bool-cases, first_where, first_where-update, first_where-test, update_where, on_row, Update,
}
use mathlib.Core.Option
use startlink.Domain.Status.{PushStatus, delivered_ok, can_transit_to}
use startlink.Domain.Status.Progress.{stage, transit-forward}
use startlink.Records.Rows.{PushRecord, PushReceipt}
use startlink.Records.Writes.{
  update_record_delivery, write_delivery, wants_write, delivery_set, new_sent_at, apply_receipt,
  apply_row, receipt_set,
}
use startlink.Records.Exclusion.{alone}

abbrev pub by_id : ℕ → PushRecord → Bool
by_id id r = r.id == id

-- `r'` is `r` later: further on or failed, about the same delivery, and sent when it was.
pub record IsLater (r r' : PushRecord) : Type 0 where
  pub onward :
      ((delivered_ok r'.status ≡ true) × (stage r.status ≤ stage r'.status))
      ⊎ (r'.status ≡ PushStatus.failed)
  pub same_task : r'.main_task_id ≡ r.main_task_id
  pub same_user : r'.user_id ≡ r.user_id
  pub same_channel : r'.channel ≡ r.channel
  pub sent_once : (t : ℕ) → r.sent_at ≡ some t → r'.sent_at ≡ some t

IsLater-refl : (r : PushRecord) → delivered_ok r.status ≡ true → IsLater r r
IsLater-refl r d = record {
  onward = inl (d, omega arith);
  same_task = refl;
  same_user = refl;
  same_channel = refl;
  sent_once = λ t e. e;
}

delivery_set-IsLater :
    (now : ℕ) (r : PushRecord) (status : PushStatus) (provider provider_id error_msg : String)
    → delivered_ok r.status ≡ true
    → can_transit_to r.status status ≡ true
    → IsLater r (delivery_set now r status provider provider_id error_msg r)
unfolding delivery_set
delivery_set-IsLater now r status provider provider_id error_msg d h = record {
  onward = transit-forward r.status status d h;
  same_task = refl;
  same_user = refl;
  same_channel = refl;
  sent_once = λ t e. unfold new_sent_at in rw e refl;
}

-- The record of an id after an update by that id.
found_after :
    (id : ℕ) (sets : PushRecord → PushRecord) (rows : List PushRecord) (r : PushRecord)
    → ((x : PushRecord) → (sets x).id ≡ x.id)
    → first_where (by_id id) rows ≡ some r
    → first_where (by_id id) (update_where (by_id id) sets rows) ≡ some (sets r)
found_after id sets rows r same e =
    let u : Update PushRecord = record { hits = by_id id; sets = sets } in
    first_where-update (by_id id) u rows (λ x. rw (same x))
    ∙ (ap (Option.map (on_row u)) e
        ∙ ap some (ground (arith, first_where-test (by_id id) rows r e)))

-- The table holds the record that `r` became, under the id of `r`.
abbrev pub LaterIn : List PushRecord → PushRecord → Type 0
LaterIn rows r = (r' : PushRecord) × (first_where (by_id r.id) rows ≡ some r') × IsLater r r'

write_delivery-LaterIn :
    (fails : Bool) (now : ℕ) (status : PushStatus) (provider provider_id error_msg : String)
    (rows : List PushRecord) (r : PushRecord)
    → first_where (by_id r.id) rows ≡ some r
    → delivered_ok r.status ≡ true
    → LaterIn (write_delivery fails now (some r) status provider provider_id error_msg rows).1 r
unfolding write_delivery wants_write
write_delivery-LaterIn fails now status provider provider_id error_msg rows r e d =
    let kept : LaterIn rows r = (r, e, IsLater-refl r d) in
    elim (Bool-cases (wants_write r status provider provider_id error_msg)) [
      | inr quiet ↦ rw (quiet, write_delivery) kept
      | inl wanted ↦ elim (Bool-cases fails) [
        | inl broken ↦ rw (wanted, broken) kept
        | inr works ↦
            rw (wanted, works)
              (
                delivery_set now r status provider provider_id error_msg r,
                found_after r.id (delivery_set now r status provider provider_id error_msg) rows r
                    (λ x. unfold delivery_set in refl) e,
                delivery_set-IsLater now r status provider provider_id error_msg d
                    (ground (arith, wanted)),
              )
      ]
    ]

-- A record that was delivered to the channel keeps its place in UpdateRecordDelivery, when no other
-- process writes during the call, whichever statements fail: it stays or moves on among the
-- delivered statuses or is marked failed, for the same delivery, and a sent_at that is set stays.
pub update_record_delivery-LaterIn :
    (f : ℕ → Bool) (now : ℕ) (status : PushStatus) (provider provider_id error_msg : String)
    (rows : List PushRecord) (r : PushRecord)
    → first_where (by_id r.id) rows ≡ some r
    → delivered_ok r.status ≡ true
    → LaterIn
        (update_record_delivery f alone now r.id status provider provider_id error_msg rows).1
        r
unfolding update_record_delivery
update_record_delivery-LaterIn f now status provider provider_id error_msg rows r e d =
    elim (Bool-cases (f 0)) [
      | inl broken ↦ rw broken (r, e, IsLater-refl r d)
      | inr works ↦
          rw (works, e)
            (write_delivery-LaterIn (f 1) now status provider provider_id error_msg rows r e d)
    ]

receipt_set-IsLater :
    (now : ℕ) (r : PushRecord) (status : PushStatus) (error_msg : String)
    → delivered_ok r.status ≡ true
    → IsLater r (receipt_set now status error_msg r)
unfolding receipt_set
receipt_set-IsLater now r status error_msg d =
    ground (arith, transit-forward r.status status d, IsLater-refl r d)

receipt_set-id :
    (now : ℕ) (status : PushStatus) (error_msg : String) (x : PushRecord)
    → (receipt_set now status error_msg x).id ≡ x.id
unfolding receipt_set
receipt_set-id now status error_msg x = ground arith

-- A record that was delivered to the channel keeps its place in ApplyReceipt too: it stays or moves
-- on among the delivered statuses or is marked failed, for the same delivery, and a sent_at that
-- is set stays.
pub apply_receipt-LaterIn :
    (fails : Bool) (now : ℕ) (status : PushStatus) (error_msg : String) (receipt : PushReceipt)
    (rows : List PushRecord) (receipts : List PushReceipt) (r : PushRecord)
    → first_where (by_id r.id) rows ≡ some r
    → delivered_ok r.status ≡ true
    → LaterIn (apply_receipt fails now r.id status error_msg receipt rows receipts).1 r
unfolding apply_receipt apply_row
apply_receipt-LaterIn fails now status error_msg receipt rows receipts r e d =
    elim (Bool-cases fails) [
      | inl broken ↦ rw broken (r, e, IsLater-refl r d)
      | inr works ↦
          rw (works, e)
            (
              receipt_set now status error_msg r,
              found_after r.id (receipt_set now status error_msg) rows r
                  (receipt_set-id now status error_msg) e,
              receipt_set-IsLater now r status error_msg d,
            )
    ]

-- The read and the write of UpdateRecordDelivery are two statements: when it reads a record that is
-- sending and marks it sent, and no statement fails, the record is `sent` afterwards whatever
-- another process made of it in between.
pub update_record_delivery-overwrites :
    (f : ℕ → Bool) (others : ℕ → List PushRecord → List PushRecord) (now : ℕ) (provider : String)
    (rows : List PushRecord) (r later : PushRecord)
    → f 0 ≡ false
    → f 1 ≡ false
    → first_where (by_id r.id) (others 0 rows) ≡ some r
    → r.status ≡ PushStatus.sending
    → first_where (by_id r.id) (others 1 (others 0 rows)) ≡ some later
    → (r' : PushRecord) × (first_where
          (by_id r.id)
          (update_record_delivery f others now r.id PushStatus.sent provider "" "" rows).1
        ≡ some r')
      × (r'.status ≡ PushStatus.sent)
unfolding update_record_delivery write_delivery wants_write can_transit_to
update_record_delivery-overwrites f others now provider rows r later f0 f1 e s el =
    rw (f0, f1, e, s)
      (
        delivery_set now r PushStatus.sent provider "" "" later,
        found_after r.id (delivery_set now r PushStatus.sent provider "" "")
            (others 1 (others 0 rows)) later (λ x. unfold delivery_set in refl) el,
        unfold delivery_set in refl,
      )
