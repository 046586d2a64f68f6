-- ===== src/Callbacks/Receipts/Applied.antt =====
-- internal/app/callback/service.go: what Handle does to the records and receipts, where no call fails and
-- no other process writes.
use startlink.Base.{
  ℕ, String, Bool, true, false, ◌&&◌, List, [], ◌∷◌, Option, some, ◌==◌, ==_refl, str_eq,
  first_where, first_where-test, first_where-update, any-first_where, any-false_of_none, on_row,
  Update, update_where, any, any-append, either, ◌++◌, ◌≡◌, refl, ap, ◌∙◌, arith, inl, inr,
  Bool-cases, Option-cases,
}
use startlink.Domain.Status.{PushStatus, ReceiptEvent, event_eq}
use startlink.Records.Rows.{PushRecord, PushReceipt}
use startlink.Records.Writes.{apply_receipt, apply_row, insert_receipt, receipt_set}
use startlink.Callbacks.Receipts.{
  ReceiptInput, Services, World, nil, is_ref, get_record_by_provider_ref, status_of, error_of,
  sync_outcomes, sync_counts, receipt_of, write_receipt, after_receipt, with_record,
}

-- No call fails, and no other process writes.
abbrev pub alone : Services → Services
alone s = record s {
  db_fails = λ i. false;
  others = λ i rows. rows;
  other_receipts = λ i rows. rows;
  other_mains = λ i rows. rows;
}

abbrev pub by_id : ℕ → PushRecord → Bool
by_id id r = r.id == id

-- A row that some query finds is found by its id, or another of that id is.
found_by_id :
    (test : PushRecord → Bool) (rows : List PushRecord) (rec : PushRecord)
    → first_where test rows ≡ some rec
    → (r : PushRecord) × (first_where (by_id rec.id) rows ≡ some r) × (r.id ≡ rec.id)
found_by_id test rows rec h = elim (Option-cases (first_where (by_id rec.id) rows)) [
  | inl missing ↦
      let hit = any-first_where test (by_id rec.id) rows rec h (==_refl rec.id) in
      let miss = any-false_of_none (by_id rec.id) rows missing in cc
  | inr (r, there) ↦ (r, there, ground (arith, first_where-test (by_id rec.id) rows r there))
]

event_eq_refl : (e : ReceiptEvent) → event_eq e e ≡ true
event_eq_refl ReceiptEvent.delivered = refl
event_eq_refl ReceiptEvent.clicked = refl
event_eq_refl ReceiptEvent.failed = refl

-- The receipt of a record and an event is stored once.
pub insert_receipt-again :
    (a : PushReceipt) (receipts : List PushReceipt)
    → insert_receipt a (insert_receipt a receipts) ≡ insert_receipt a receipts
unfolding insert_receipt
insert_receipt-again a receipts =
    let test =
      λ (r : PushReceipt). r.push_record_id == a.push_record_id && event_eq r.event a.event in
    elim (Bool-cases (any test receipts)) [
      | inl there ↦ rw (there, there) refl
      | inr missing ↦
          let now_there : any test (receipts ++ (a ∷ [])) ≡ true = ground (
            arith,
            any-append test receipts (a ∷ []),
            event_eq_refl a.event,
            ==_refl a.push_record_id,
          ) in
          rw (missing, now_there) refl
    ]

pub receipt_of-same :
    (input : ReceiptInput) (event : ReceiptEvent) (rec rec' : PushRecord)
    → rec'.id ≡ rec.id
    → receipt_of input event rec' ≡ receipt_of input event rec
unfolding receipt_of
receipt_of-same input event rec rec' h =
    ap (λ n. record { push_record_id = n; event = event; raw_payload = input.raw_payload }) h

pub receipt_set-again :
    (now now' : ℕ) (status : PushStatus) (text text' : String) (r : PushRecord)
    → (receipt_set now' status text' (receipt_set now status text r)).status
      ≡ (receipt_set now status text r).status
unfolding receipt_set
receipt_set-again now now' status text text' r = ground arith

module _ (s : Services) where
  sync_counts-keeps :
      (id : ℕ) (w : World)
      → ((sync_counts (alone s) id w).records ≡ w.records)
        × ((sync_counts (alone s) id w).receipts ≡ w.receipts)
  unfolding sync_counts sync_outcomes
  sync_counts-keeps id w = (
    either (λ (v : World). v.records) s.has_tasks _ w w.records
        (either (λ (v : World). v.records) _ _ _ w.records refl refl) refl,
    either (λ (v : World). v.receipts) s.has_tasks _ w w.receipts
        (either (λ (v : World). v.receipts) _ _ _ w.receipts refl refl) refl,
  )

  pub with_record-Applied :
      (input : ReceiptInput) (event : ReceiptEvent) (rec read : PushRecord) (w : World)
      → input.event ≡ some event
      → first_where (by_id rec.id) w.records ≡ some read
      → read.id ≡ rec.id
      → ((with_record (alone s) input (some rec) w).0 ≡ nil)
        × ((with_record (alone s) input (some rec) w).1.records
            ≡ update_where
                (by_id rec.id)
                (receipt_set
                  (s.clock w.calls)
                  (status_of event)
                  (error_of s.clip event input.raw_payload))
                w.records)
        × ((with_record (alone s) input (some rec) w).1.receipts
            ≡ insert_receipt (receipt_of input event rec) w.receipts)
  unfolding with_record write_receipt after_receipt apply_receipt apply_row receipt_of
  with_record-Applied input event rec read w e there same =
      let kept = sync_counts-keeps rec.main_task_id _ in
      rw (e, there) (rw same (refl, kept.0, kept.1))

pub receipt_set-id :
    (now : ℕ) (status : PushStatus) (text : String) (r : PushRecord)
    → (receipt_set now status text r).id ≡ r.id
unfolding receipt_set
receipt_set-id now status text r = either (λ (x : PushRecord). x.id) _ _ r r.id refl refl

pub receipt_set-is_ref :
    (provider : String) (channel : String) (provider_id : String) (now : ℕ) (status : PushStatus)
    (text : String) (r : PushRecord)
    → is_ref provider channel provider_id (receipt_set now status text r)
      ≡ is_ref provider channel provider_id r
unfolding receipt_set is_ref
receipt_set-is_ref provider channel provider_id now status text r =
    either (is_ref provider channel provider_id) _ _ r (is_ref provider channel provider_id r) refl
      refl

-- The update of a receipt.
abbrev pub receipt_update : ℕ → ℕ → PushStatus → String → Update PushRecord
receipt_update id now status text = record { hits = by_id id; sets = receipt_set now status text }

pub get_record-update :
    (provider channel provider_id : String) (u : Update PushRecord) (rows : List PushRecord)
    → ((r : PushRecord)
        → is_ref provider channel provider_id (u.sets r) ≡ is_ref provider channel provider_id r)
    → (rec : PushRecord) → get_record_by_provider_ref provider channel provider_id rows ≡ some rec
    → get_record_by_provider_ref provider channel provider_id (update_where u.hits u.sets rows)
      ≡ some (on_row u rec)
unfolding get_record_by_provider_ref
get_record-update provider channel provider_id u rows same rec h =
    elim (Bool-cases (str_eq provider_id "")) [
      | inl e ↦ let contra : Option.none ≡ some rec = rw e at h in cc
      | inr e ↦ rw e (
          first_where-update (is_ref provider channel provider_id) u rows same
          ∙ rw (rw e at h) refl)
    ]

pub get_record-by_id :
    (provider channel provider_id : String) (rows : List PushRecord) (rec : PushRecord)
    → get_record_by_provider_ref provider channel provider_id rows ≡ some rec
    → (r : PushRecord) × (first_where (by_id rec.id) rows ≡ some r) × (r.id ≡ rec.id)
unfolding get_record_by_provider_ref
get_record-by_id provider channel provider_id rows rec h =
    elim (Bool-cases (str_eq provider_id "")) [
      | inl e ↦ let contra : Option.none ≡ some rec = rw e at h in cc
      | inr e ↦ found_by_id (is_ref provider channel provider_id) rows rec (rw e at h)
    ]
