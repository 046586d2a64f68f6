-- ===== src/Records/Exclusion.antt =====
-- internal/adapter/repo/task.go: ClaimDelivery as a lock on the delivery of a message. Statements
-- of other processes on the same record are ordered before or after each call here.
use startlink.Base.{
  ℕ, ◌+◌, ◌≤◌, Bool, true, false, List, [], ◌∷◌, ◌++◌, Option, none, some, ==_refl, str_eq_refl,
  ◌≡◌, refl, ap, ◌∙◌, inl, inr, arith, Bool-cases, any, update_where, first_where,
  first_where-update, first_where-test, first_where-append, any-first_where, on_row,
}
use mathlib.Core.Option
use startlink.Domain.Status.{PushStatus, delivered_ok}
use startlink.Records.Rows.{PushRecord, has_key}
use startlink.Records.Claim.{
  claimed, claim_delivery, claim_existing, fresh_record, reclaim_update, in_flight_stale,
}

-- No other process writes during the call.
abbrev pub alone : ℕ → List PushRecord → List PushRecord
alone i rows = rows

-- The key is reserved since `now` under the record `id`.
pub record IsReserved (key : PushRecord → Bool) (id now : ℕ) (rows : List PushRecord) : Type 0 where
  pub holder : PushRecord
  pub found : first_where key rows ≡ some holder
  pub same_id : holder.id ≡ id
  pub in_progress : holder.status ≡ PushStatus.sending
  pub since : holder.updated_at ≡ now

abbrev pub key_of : PushRecord → PushRecord → Bool
key_of rec = has_key rec.main_task_id rec.user_id rec.channel

key_of-fresh : (now id : ℕ) (rec : PushRecord) → key_of rec (fresh_record now id rec) ≡ true
unfolding fresh_record
key_of-fresh now id rec =
    rw (==_refl rec.main_task_id, str_eq_refl rec.user_id, str_eq_refl rec.channel)

insert-IsReserved :
    (now id : ℕ) (rec : PushRecord) (rows : List PushRecord)
    → any (key_of rec) rows ≡ false
    → IsReserved (key_of rec) id now (rows ++ (fresh_record now id rec ∷ []))
unfolding fresh_record
insert-IsReserved now id rec rows absent = record {
  holder = fresh_record now id rec;
  found =
      first_where-append (key_of rec) rows (fresh_record now id rec) absent
        (key_of-fresh now id rec);
  same_id = refl;
  in_progress = refl;
  since = refl;
}

reclaim-IsReserved :
    (now : ℕ) (rec existing : PushRecord) (rows : List PushRecord)
    → first_where (key_of rec) rows ≡ some existing
    → delivered_ok existing.status ≡ false
    → let u = reclaim_update now existing.id rec in
      IsReserved (key_of rec) existing.id now (update_where u.hits u.sets rows)
unfolding reclaim_update delivered_ok
reclaim-IsReserved now rec existing rows e d =
    let u = reclaim_update now existing.id rec in
    let hit : u.hits existing ≡ true = ground (arith, ==_refl existing.id) in
    record {
      holder = u.sets existing;
      found =
          first_where-update (key_of rec) u rows (λ r. refl)
          ∙ (ap (Option.map (on_row u)) e ∙ ap some (ground (arith, hit)));
      same_id = refl;
      in_progress = refl;
      since = refl;
    }

claim_existing-IsReserved :
    (f : ℕ → Bool) (now : ℕ) (rec : PushRecord) (found : Option PushRecord)
    (rows rows' : List PushRecord) (id : ℕ)
    → first_where (key_of rec) rows ≡ found
    → claim_existing f alone now rec found rows ≡ (claimed id, rows')
    → IsReserved (key_of rec) id now rows'
unfolding claim_existing
claim_existing-IsReserved f now rec none rows rows' id e h = cc
claim_existing-IsReserved f now rec (some existing) rows rows' id e h =
    elim (Bool-cases (delivered_ok existing.status)) [
      | inl d ↦ ground (arith, d)
      | inr d ↦
          let u = reclaim_update now existing.id rec in
          let done : (id ≡ existing.id) × (rows' ≡ update_where u.hits u.sets rows) =
            (ground (arith, d), ground (arith, d)) in
          rw (done.0, done.1) (reclaim-IsReserved now rec existing rows e d)
    ]

-- A claim that succeeds reserves the delivery, when no other process writes during the call: the
-- key's record is then sending, since `now`, under the id that the claim answered.
pub claim_delivery-IsReserved :
    (f : ℕ → Bool) (now new : ℕ) (rec : PushRecord) (rows rows' : List PushRecord) (id : ℕ)
    → claim_delivery f alone now new rec rows ≡ (claimed id, rows')
    → IsReserved (key_of rec) id now rows'
unfolding claim_delivery
claim_delivery-IsReserved f now new rec rows rows' id h =
    elim (Bool-cases (any (key_of rec) rows)) [
      | inl there ↦
          claim_existing-IsReserved f now rec (first_where (key_of rec) rows) rows rows' id refl
            (ground (arith, there))
      | inr absent ↦
          let done : (id ≡ new) × (rows' ≡ rows ++ (fresh_record now new rec ∷ [])) =
            (ground (arith, absent), ground (arith, absent)) in
          rw (done.0, done.1) (insert-IsReserved now new rec rows absent)
    ]

claim_existing-old :
    (f : ℕ → Bool) (later : ℕ) (rec r : PushRecord) (rows : List PushRecord)
    → f 2 ≡ false
    → first_where (key_of rec) rows ≡ some r
    → r.status ≡ PushStatus.sending
    → r.updated_at + in_flight_stale ≤ later
    → (claim_existing f alone later rec (some r) rows).0 ≡ claimed r.id
unfolding claim_existing delivered_ok
claim_existing-old f later rec r rows f2 e s old =
    let u = reclaim_update later r.id rec in
    let hit : u.hits r ≡ true = unfold reclaim_update in ground (arith, ==_refl r.id) in
    ground (arith, any-first_where (key_of rec) u.hits rows r e hit)

there :
    (rec : PushRecord) (id now : ℕ) (rows : List PushRecord)
    (v : IsReserved (key_of rec) id now rows)
    → any (key_of rec) rows ≡ true
there rec id now rows v =
    any-first_where (key_of rec) (key_of rec) rows v.holder v.found
      (first_where-test (key_of rec) rows v.holder v.found)

-- Once a reservation is two minutes old, a claim of the key takes it over, when its three statements
-- do not fail and no other process writes during the call.
pub claim_delivery-lapsed :
    (f : ℕ → Bool) (now later new id : ℕ) (rec : PushRecord) (rows : List PushRecord)
    → f 0 ≡ false
    → f 1 ≡ false
    → f 2 ≡ false
    → IsReserved (key_of rec) id now rows
    → now + in_flight_stale ≤ later
    → (claim_delivery f alone later new rec rows).0 ≡ claimed id
unfolding claim_delivery
claim_delivery-lapsed f now later new id rec rows f0 f1 f2 v old =
    rw (f0, f1, there rec id now rows v, v.found, ← v.same_id)
      (claim_existing-old f later rec v.holder rows f2 v.found v.in_progress (rw (v.since) old))
