-- ===== src/Callbacks/Receipts.antt =====
-- internal/app/callback/service.go: Handle, with GetRecordByProviderRef. Before a statement other
-- processes write to the tables. The trace of a receipt writes nothing that is read back.
pub mod Applied
pub mod Repeated
use startlink.Base.{
  ℕ, suc, String, Bool, true, false, not, ◌&&◌, List, Option, none, some, ◌==◌, str_eq, first_where,
  if◌then◌else◌, Reply, ok, err,
}
use startlink.Domain.Status.{PushStatus, ReceiptEvent}
use startlink.Domain.Channel.{ChannelType}
use startlink.Tasks.Rows.{MainTask}
use startlink.Tasks.Main.Counters.{sync_main_user_counts}
use startlink.Records.Rows.{PushRecord, PushReceipt}
use startlink.Records.Writes.{apply_receipt}
use startlink.Records.Outcomes.{UserPushOutcomes, count_user_outcomes}

-- The body of a callback; `none` is an event of another name.
pub record ReceiptInput : Type 0 where
  pub provider_id : String
  pub provider : String
  pub channel : ChannelType
  pub event : Option ReceiptEvent
  pub raw_payload : String

-- Answers go by the number of the call. `clip` is the first 512 bytes of a longer text.
pub record Services : Type 0 where
  pub clock : ℕ → ℕ
  pub db_fails : ℕ → Bool
  pub others : ℕ → List PushRecord → List PushRecord
  pub other_receipts : ℕ → List PushReceipt → List PushReceipt
  pub other_mains : ℕ → List MainTask → List MainTask
  pub has_tasks : Bool
  pub clip : String → String

pub record World : Type 0 where
  pub calls : ℕ
  pub records : List PushRecord
  pub receipts : List PushReceipt
  pub mains : List MainTask

pub data Answer : Type 0 where
  nil not_found invalid_param db_error : Answer

-- `if provider == "" && in.Channel != "" { provider = string(in.Channel) }`
unfoldable pub provider_or : String → ChannelType → String
provider_or provider channel =
    if str_eq provider "" && not (str_eq channel "") then channel else provider

-- The WHERE clause of GetRecordByProviderRef.
unfoldable pub is_ref : String → ChannelType → String → PushRecord → Bool
is_ref provider channel provider_id r =
    (elim r.provider_id [ none ↦ false | some id ↦ str_eq id provider_id ])
    && (if str_eq provider "" then true else str_eq r.provider provider)
    && (if str_eq channel "" then true else str_eq r.channel channel)

-- GetRecordByProviderRef
unfoldable pub get_record_by_provider_ref :
    String → ChannelType → String → List PushRecord → Option PushRecord
unfolding is_ref
get_record_by_provider_ref provider channel provider_id rows =
    if str_eq provider_id "" then none else first_where (is_ref provider channel provider_id) rows

-- The `switch` on the event.
unfoldable pub status_of : ReceiptEvent → PushStatus
status_of ReceiptEvent.delivered = PushStatus.delivered
status_of ReceiptEvent.clicked = PushStatus.clicked
status_of ReceiptEvent.failed = PushStatus.failed

unfoldable pub error_of : (String → String) → ReceiptEvent → String → String
error_of clip ReceiptEvent.failed raw_payload = clip raw_payload
error_of clip ReceiptEvent.delivered raw_payload = ""
error_of clip ReceiptEvent.clicked raw_payload = ""

unfoldable pub sync_outcomes : Services → ℕ → UserPushOutcomes → World → World
sync_outcomes s main_id oc w =
    if oc.has_records
    then record w {
      mains =
          (sync_main_user_counts (s.db_fails w.calls) (s.clock w.calls) main_id oc.success_users
            oc.fail_users (s.other_mains w.calls w.mains)).1;
      calls = suc w.calls;
    }
    else w

-- The count of the outcomes and its update, whose errors are dropped.
unfoldable pub sync_counts : Services → ℕ → World → World
unfolding sync_outcomes
sync_counts s main_id w =
    if s.has_tasks
    then (let rows = s.others w.calls w.records in
        let w' = record w { records = rows; calls = suc w.calls } in
        if s.db_fails w.calls
        then w'
        else sync_outcomes s main_id (count_user_outcomes main_id rows) w')
    else w

unfoldable pub receipt_of : ReceiptInput → ReceiptEvent → PushRecord → PushReceipt
receipt_of input event rec = record {
  push_record_id = rec.id;
  event = event;
  raw_payload = input.raw_payload;
}

-- The transaction of ApplyReceipt.
unfoldable pub write_receipt :
    Services → ReceiptInput → ReceiptEvent → PushRecord → World → Reply Bool × World
unfolding status_of error_of receipt_of
write_receipt s input event rec w =
    let r =
      apply_receipt (s.db_fails w.calls) (s.clock w.calls) rec.id (status_of event)
        (error_of s.clip event input.raw_payload) (receipt_of input event rec)
        (s.others w.calls w.records) (s.other_receipts w.calls w.receipts) in
    (r.0, record w { records = r.1; receipts = r.2; calls = suc w.calls })

unfoldable pub after_receipt : Services → PushRecord → Reply Bool × World → Answer × World
unfolding sync_counts
after_receipt s rec (ok b, w) = (nil, sync_counts s rec.main_task_id w)
after_receipt s rec (err, w) = (db_error, w)

unfoldable pub with_record : Services → ReceiptInput → Option PushRecord → World → Answer × World
unfolding write_receipt after_receipt
with_record s input none w = (not_found, w)
with_record s input (some rec) w = elim input.event [
  | none ↦ (invalid_param, w)
  | some event ↦ after_receipt s rec (write_receipt s input event rec w)
]

-- Handle
unfoldable pub handle : Services → ReceiptInput → World → Answer × World
unfolding provider_or get_record_by_provider_ref with_record
handle s input w =
    let rows = s.others w.calls w.records in
    let w' = record w { records = rows; calls = suc w.calls } in
    if s.db_fails w.calls
    then (db_error, w')
    else with_record s input
        (get_record_by_provider_ref (provider_or input.provider input.channel) input.channel
          input.provider_id rows)
        w'
