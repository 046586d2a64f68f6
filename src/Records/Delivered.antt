-- ===== src/Records/Delivered.antt =====
-- internal/adapter/repo/task.go: ClaimDelivery gives a delivered message to nobody.
use startlink.Base.{
  ℕ, Bool, true, List, some, ◌≡◌, ◌≢◌, arith, first_where, first_where-test, any-first_where,
}
use startlink.Domain.Status.{delivered_ok}
use startlink.Records.Rows.{PushRecord}
use startlink.Records.Claim.{claimed, claim_delivery, claim_existing}
use startlink.Records.Exclusion.{key_of}

-- The record that the key finds was delivered to the channel.
pub record IsDelivered (key : PushRecord → Bool) (rows : List PushRecord) : Type 0 where
  pub holder : PushRecord
  pub found : first_where key rows ≡ some holder
  pub done : delivered_ok holder.status ≡ true

-- The other processes leave it so.
abbrev pub KeepDelivered : (PushRecord → Bool) → (ℕ → List PushRecord → List PushRecord) → Type 0
KeepDelivered key others =
    (n : ℕ) (rows : List PushRecord) → IsDelivered key rows → IsDelivered key (others n rows)

existing-unclaimed :
    (f : ℕ → Bool) (others : ℕ → List PushRecord → List PushRecord) (now id : ℕ) (rec : PushRecord)
    (rows : List PushRecord)
    → IsDelivered (key_of rec) rows
    → (claim_existing f others now rec (first_where (key_of rec) rows) rows).0 ≢ claimed id
unfolding claim_existing
existing-unclaimed f others now id rec rows v h = ground (arith, v.found, v.done, h)

-- A claim of a delivered message fails or is told that it is a duplicate: it never owns the record.
pub claim_delivery-IsDelivered :
    (f : ℕ → Bool) (others : ℕ → List PushRecord → List PushRecord) (now new id : ℕ)
    (rec : PushRecord) (rows : List PushRecord)
    → KeepDelivered (key_of rec) others
    → IsDelivered (key_of rec) rows
    → (claim_delivery f others now new rec rows).0 ≢ claimed id
unfolding claim_delivery
claim_delivery-IsDelivered f others now new id rec rows keep v h =
    let seen = others 0 rows in
    let vs = keep 0 rows v in
    let va = keep 1 seen vs in
    let test = first_where-test (key_of rec) seen vs.holder vs.found in
    let there = any-first_where (key_of rec) (key_of rec) seen vs.holder vs.found test in
    ground (arith, there, existing-unclaimed f others now id rec (others 1 seen) va, h)
