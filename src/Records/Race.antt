-- ===== src/Records/Race.antt =====
-- internal/adapter/repo/task.go: ClaimDelivery reads the record of a key and then takes it over by
-- its id and a list of statuses that holds `sending`, with no lock in between.
use startlink.Base.{
  ℕ, zero, suc, Bool, true, false, List, some, ◌≡◌, refl, ◌∙◌, ap, arith, ==_refl, first_where,
  update_where, any, any-first_where, first_where-test, first_where-update, on_row,
}
use mathlib.Core.Option
use startlink.Domain.Status.{PushStatus, delivered_ok}
use startlink.Records.Rows.{PushRecord}
use startlink.Records.Claim.{claimed, claim_delivery, claim_existing, reclaim_update, may_reclaim}
use startlink.Records.Exclusion.{alone, key_of}

-- No statement fails.
abbrev pub works : ℕ → Bool
works i = false

-- Between the read and the update of a claim, another process claims the same key.
abbrev pub claim_between : ℕ → ℕ → PushRecord → ℕ → List PushRecord → List PushRecord
claim_between now new rec (suc (suc zero)) rows = (claim_delivery works alone now new rec rows).1
claim_between now new rec _ rows = rows

there :
    (rec r : PushRecord) (rows : List PushRecord)
    → first_where (key_of rec) rows ≡ some r
    → any (key_of rec) rows ≡ true
there rec r rows e =
    any-first_where (key_of rec) (key_of rec) rows r e (first_where-test (key_of rec) rows r e)

failed-claimed :
    (now new : ℕ) (rec r : PushRecord) (rows : List PushRecord)
    → first_where (key_of rec) rows ≡ some r
    → r.status ≡ PushStatus.failed
    → let u = reclaim_update now r.id rec in
      claim_delivery works alone now new rec rows ≡ (claimed r.id, update_where u.hits u.sets rows)
unfolding claim_delivery claim_existing delivered_ok
failed-claimed now new rec r rows e s =
    let u = reclaim_update now r.id rec in
    let hit : u.hits r ≡ true = unfold reclaim_update may_reclaim in ground (arith, ==_refl r.id) in
    let taken = any-first_where (key_of rec) u.hits rows r e hit in
    rw (there rec r rows e, e) (ground (arith, taken))

failed-taken :
    (others : ℕ → List PushRecord → List PushRecord) (now : ℕ) (rec r : PushRecord)
    (rows : List PushRecord)
    → r.status ≡ PushStatus.failed
    → any (reclaim_update now r.id rec).hits (others 2 rows) ≡ true
    → (claim_existing works others now rec (some r) rows).0 ≡ claimed r.id
unfolding claim_existing delivered_ok
failed-taken others now rec r rows s taken = ground (arith, taken)

-- Two processes may claim one delivery: when the record of the key has failed, and another process
-- claims the key between this claim's read and its update, both are told that they own the record.
pub claim_delivery-both_claimed :
    (now new other_now other_new : ℕ) (rec r : PushRecord) (rows : List PushRecord)
    → first_where (key_of rec) rows ≡ some r
    → r.status ≡ PushStatus.failed
    → ((claim_delivery works alone other_now other_new rec rows).0 ≡ claimed r.id)
      × ((claim_delivery works (claim_between other_now other_new rec) now new rec rows).0
          ≡ claimed r.id)
unfolding claim_delivery
claim_delivery-both_claimed now new other_now other_new rec r rows e s =
    let first = failed-claimed other_now other_new rec r rows e s in
    let v = reclaim_update other_now r.id rec in
    let u = reclaim_update now r.id rec in
    let hit_v : v.hits r ≡ true =
      unfold reclaim_update may_reclaim in ground (arith, ==_refl r.id) in
    let hit_u : u.hits (v.sets r) ≡ true =
      unfold reclaim_update may_reclaim in ground (arith, ==_refl r.id) in
    let found : first_where (key_of rec) (update_where v.hits v.sets rows) ≡ some (v.sets r) =
      first_where-update (key_of rec) v rows (λ x. unfold reclaim_update in refl)
      ∙ (ap (Option.map (on_row v)) e ∙ ap some (ground (arith, hit_v))) in
    let taken =
      any-first_where (key_of rec) u.hits (update_where v.hits v.sets rows) (v.sets r) found
        hit_u in
    (
      ap (λ p. p.0) first,
      rw (there rec r rows e, e)
          (failed-taken (claim_between other_now other_new rec) now rec r rows s
            (rw (ap (λ p. p.1) first) taken)),
    )
