-- ===== src/Callbacks/Receipts/Repeated.antt =====
-- internal/app/callback/service.go: a callback that the vendor sends again, where no call fails and no
-- other process writes.
use startlink.Base.{
  ℕ, suc, String, true, List, [], ◌∷◌, none, some, ◌==◌, on_row, update_where, either, map, ◌≡◌,
  refl, sym, ap, ◌∙◌, inl, inr, Bool-cases, Option-cases,
}
use startlink.Domain.Status.{PushStatus, ReceiptEvent}
use startlink.Records.Rows.{PushRecord}
use startlink.Records.Writes.{insert_receipt, receipt_set}
use startlink.Callbacks.Receipts.{
  ReceiptInput, Services, World, Answer, invalid_param, provider_or, get_record_by_provider_ref,
  status_of, error_of, receipt_of, with_record, handle,
}
use startlink.Callbacks.Receipts.Applied.{
  alone, by_id, receipt_update, insert_receipt-again, receipt_of-same, receipt_set-again,
  with_record-Applied, receipt_set-id, receipt_set-is_ref, get_record-update, get_record-by_id,
}

statuses-again :
    (id now now' : ℕ) (status : PushStatus) (text : String) (rows : List PushRecord)
    → map
        (λ r. r.status)
        (update_where
          (by_id id)
          (receipt_set now' status text)
          (update_where (by_id id) (receipt_set now status text) rows))
      ≡ map (λ r. r.status) (update_where (by_id id) (receipt_set now status text) rows)
statuses-again id now now' status text [] = refl
statuses-again id now now' status text (r ∷ rows) = elim (Bool-cases (by_id id r)) [
  | inl e ↦
      let set = receipt_set now status text r in
      let still : by_id id set ≡ true = ap (λ n. n == id) (receipt_set-id now status text r) ∙ e in
      rw (e, still)
        (ap
            (λ x.
              x
              ∷ map (λ r. r.status)
                  (update_where (by_id id) (receipt_set now' status text)
                    (update_where (by_id id) (receipt_set now status text) rows)))
            (receipt_set-again now now' status text text r)
          ∙ ap (λ xs. set.status ∷ xs) (statuses-again id now now' status text rows))
  | inr e ↦ rw (e, e) (ap (λ xs. r.status ∷ xs) (statuses-again id now now' status text rows))
]

-- The same answer, receipts and statuses.
pub record Same (a : Answer) (w : World) (b : Answer) (v : World) : Type 0 where
  pub answer : b ≡ a
  pub receipts : v.receipts ≡ w.receipts
  pub statuses : map (λ r. r.status) v.records ≡ map (λ r. r.status) w.records

module _ (s : Services) (input : ReceiptInput) (event : ReceiptEvent)
    (known : input.event ≡ some event) where
  again :
      (provider channel provider_id : String) (rec : PushRecord) (w : World)
      → get_record_by_provider_ref provider channel provider_id w.records ≡ some rec
      → let r = with_record (alone s) input (some rec) w in
        let o = get_record_by_provider_ref provider channel provider_id r.1.records in
        let r' = with_record (alone s) input o (record r.1 { calls = suc r.1.calls }) in
        Same r.0 r.1 r'.0 r'.1
  again provider channel provider_id rec w h =
      let text = error_of s.clip event input.raw_payload in
      let status = status_of event in
      let (read, there, same) = get_record-by_id provider channel provider_id w.records rec h in
      let (nil1, rows1, receipts1) =
        with_record-Applied s input event rec read w known there same in
      let v = (with_record (alone s) input (some rec) w).1 in
      let u = receipt_update rec.id (s.clock w.calls) status text in
      let rec' = on_row u rec in
      let h' : get_record_by_provider_ref provider channel provider_id v.records ≡ some rec' =
        ap (get_record_by_provider_ref provider channel provider_id) rows1
        ∙ get_record-update provider channel provider_id u w.records
            (receipt_set-is_ref provider channel provider_id (s.clock w.calls) status text) rec h in
      let id' : rec'.id ≡ rec.id =
        either (λ (x : PushRecord). x.id) _ _ rec rec.id
          (receipt_set-id (s.clock w.calls) status text rec) refl in
      let (read', there', same') =
        get_record-by_id provider channel provider_id v.records rec' h' in
      let (nil2, rows2, receipts2) =
        with_record-Applied s input event rec' read' (record v { calls = suc v.calls }) known there'
          same' in
      let a = receipt_of input event rec in
      rw h' (record {
        answer = nil2 ∙ sym nil1;
        receipts =
            receipts2
            ∙ ap (λ x. insert_receipt x v.receipts) (receipt_of-same input event rec rec' id')
            ∙ ap (insert_receipt a) receipts1
            ∙ insert_receipt-again a w.receipts
            ∙ sym receipts1;
        statuses =
            ap (map (λ r. r.status)) rows2
            ∙ ap
                (λ n.
                  map (λ r. r.status)
                    (update_where (by_id n) (receipt_set (s.clock (suc v.calls)) status text)
                      v.records))
                id'
            ∙ ap
                (λ rows.
                  map (λ r. r.status)
                    (update_where (by_id rec.id) (receipt_set (s.clock (suc v.calls)) status text)
                      rows))
                rows1
            ∙ statuses-again rec.id (s.clock w.calls) (s.clock (suc v.calls)) status text w.records
            ∙ sym (ap (map (λ r. r.status)) rows1);
      })

unknown :
    (s : Services) (input : ReceiptInput) (rec : PushRecord) (w : World)
    → input.event ≡ none
    → with_record s input (some rec) w ≡ (invalid_param, w)
unfolding with_record
unknown s input rec w h = rw h refl

-- Where no call fails and no other process writes, a callback that is handled twice gives the same
-- answer, an error too, and the second leaves the receipts and the statuses of the records as the first
-- did.
pub handle-again :
    (s : Services) (input : ReceiptInput) (w : World)
    → Same
        (handle (alone s) input w).0
        (handle (alone s) input w).1
        (handle (alone s) input (handle (alone s) input w).1).0
        (handle (alone s) input (handle (alone s) input w).1).1
unfolding handle
handle-again s input w =
    let provider = provider_or input.provider input.channel in
    elim (Option-cases
      (get_record_by_provider_ref provider input.channel input.provider_id w.records)) [
        | inl missing ↦ rw missing (
            unfold with_record in
            rw missing (record { answer = refl; receipts = refl; statuses = refl }))
        | inr (rec, there) ↦ elim (Option-cases input.event) [
          | inl other ↦
              let once = unknown (alone s) input rec (record w { calls = suc w.calls }) other in
              let twice =
                unknown (alone s) input rec (record w { calls = suc (suc w.calls) }) other in
              rw there (
                rw once (
                  rw there (rw twice (record { answer = refl; receipts = refl; statuses = refl }))))
          | inr (event, known) ↦ rw there (
              again s input event known provider input.channel input.provider_id rec
                (record w { calls = suc w.calls }) there)
        ]
      ]
