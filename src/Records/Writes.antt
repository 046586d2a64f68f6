-- ===== src/Records/Writes.antt =====
-- internal/adapter/repo/task.go: UpdateRecordStatus, UpdateRecordDelivery, ApplyReceipt and
-- CreateReceipt.
use startlink.Base.{
  ℕ, String, Bool, true, not, ◌&&◌, ◌||◌, List, [], ◌∷◌, ◌++◌, Option, none, some, ◌==◌,
  if◌then◌else◌, str_eq, any, Reply, ok, err, first_where, update_where,
}
use startlink.Domain.Status.{
  PushStatus, event_eq, status_eq, delivered_ok, is_suppressed_like, can_transit_to,
}
use startlink.Records.Rows.{PushRecord, PushReceipt, unless_empty, unless_empty_id}

-- The `switch` that sets error_msg.
unfoldable pub new_error : PushStatus → String → String → String
unfolding delivered_ok is_suppressed_like
new_error status error_msg old =
    if status_eq status PushStatus.failed || is_suppressed_like status
    then unless_empty error_msg old
    else (if delivered_ok status || status_eq status PushStatus.sending
        then error_msg
        else (if status_eq status PushStatus.queued || status_eq status PushStatus.cancelled
            then unless_empty error_msg old
            else old))

-- sent_at is written when a record is first sent, never after.
unfoldable pub new_sent_at : ℕ → PushStatus → Option ℕ → Option ℕ → Option ℕ
new_sent_at now status none old = if status_eq status PushStatus.sent then some now else old
new_sent_at now status (some at) old = old

-- The update that follows from the row that was read, for the row that is there by then.
unfoldable pub delivery_set :
    ℕ → PushRecord → PushStatus → String → String → String → PushRecord → PushRecord
unfolding new_error new_sent_at
delivery_set now read status provider provider_id error_msg r = record r {
  status = status;
  provider = unless_empty provider r.provider;
  provider_id = unless_empty_id provider_id r.provider_id;
  error_msg = new_error status error_msg r.error_msg;
  sent_at = new_sent_at now status read.sent_at r.sent_at;
  updated_at = now;
}

-- Does the row that was read want a write at all?
unfoldable pub wants_write : PushRecord → PushStatus → String → String → String → Bool
unfolding can_transit_to
wants_write read status provider provider_id error_msg =
    can_transit_to read.status status
    && not (
        status_eq read.status status
        && str_eq provider ""
        && str_eq provider_id ""
        && str_eq error_msg "")

unfoldable pub write_delivery :
    Bool
    → ℕ
    → Option PushRecord
    → PushStatus
    → String
    → String
    → String
    → List PushRecord
    → Reply Bool × List PushRecord
unfolding wants_write delivery_set
write_delivery fails now none status provider provider_id error_msg rows = (err, rows)
write_delivery fails now (some read) status provider provider_id error_msg rows =
    if wants_write read status provider provider_id error_msg
    then (if fails then (err, rows) else (
      ok true,
      update_where (λ r. r.id == read.id)
          (delivery_set now read status provider provider_id error_msg) rows,
    ))
    else (ok true, rows)

-- UpdateRecordDelivery: a read, then a write by id, with no lock in between.
unfoldable pub update_record_delivery :
    (ℕ → Bool)
    → (ℕ → List PushRecord → List PushRecord)
    → ℕ
    → ℕ
    → PushStatus
    → String
    → String
    → String
    → List PushRecord
    → Reply Bool × List PushRecord
unfolding write_delivery
update_record_delivery f others now id status provider provider_id error_msg rows =
    let seen = others 0 rows in
    let read = first_where (λ r. r.id == id) seen in
    if f 0
    then (err, seen)
    else (write_delivery (f 1) now read status provider provider_id error_msg (others 1 seen))

-- UpdateRecordStatus
unfoldable pub update_record_status :
    (ℕ → Bool)
    → (ℕ → List PushRecord → List PushRecord)
    → ℕ
    → ℕ
    → PushStatus
    → String
    → String
    → List PushRecord
    → Reply Bool × List PushRecord
unfolding update_record_delivery
update_record_status f others now id status provider_id error_msg rows =
    update_record_delivery f others now id status "" provider_id error_msg rows

-- CreateReceipt: ON CONFLICT (push_record_id, event) DO NOTHING.
unfoldable pub insert_receipt : PushReceipt → List PushReceipt → List PushReceipt
insert_receipt receipt receipts =
    if any (λ r. r.push_record_id == receipt.push_record_id && event_eq r.event receipt.event)
      receipts
    then receipts
    else receipts ++ (receipt ∷ [])

unfoldable pub receipt_error : PushStatus → String → String → String
unfolding delivered_ok is_suppressed_like
receipt_error status error_msg old =
    if status_eq status PushStatus.failed || is_suppressed_like status
    then unless_empty error_msg old
    else (if delivered_ok status then error_msg else old)

unfoldable pub receipt_set : ℕ → PushStatus → String → PushRecord → PushRecord
unfolding receipt_error can_transit_to
receipt_set now status error_msg r =
    if can_transit_to r.status status && not (status_eq r.status status && str_eq error_msg "")
    then record r {
      status = status;
      error_msg = receipt_error status error_msg r.error_msg;
      updated_at = now;
    }
    else r

unfoldable pub apply_row :
    ℕ
    → Option PushRecord
    → PushStatus
    → String
    → PushReceipt
    → List PushRecord
    → List PushReceipt
    → Reply Bool × List PushRecord × List PushReceipt
unfolding receipt_set insert_receipt
apply_row now none status error_msg receipt rows receipts = (err, rows, receipts)
apply_row now (some read) status error_msg receipt rows receipts = (
  ok true,
  update_where (λ r. r.id == read.id) (receipt_set now status error_msg) rows,
  insert_receipt (record receipt { push_record_id = read.id }) receipts,
)

-- ApplyReceipt: one transaction that holds the row's lock; a failure rolls it back.
unfoldable pub apply_receipt :
    Bool
    → ℕ
    → ℕ
    → PushStatus
    → String
    → PushReceipt
    → List PushRecord
    → List PushReceipt
    → Reply Bool × List PushRecord × List PushReceipt
unfolding apply_row
apply_receipt fails now id status error_msg receipt rows receipts =
    if fails
    then (err, rows, receipts)
    else apply_row now (first_where (λ r. r.id == id) rows) status error_msg receipt rows receipts
