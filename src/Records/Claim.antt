-- ===== src/Records/Claim.antt =====
-- internal/adapter/repo/task.go: ClaimDelivery, which reserves the delivery of a message to a user
-- over a channel.
use startlink.Base.{
  ℕ, ◌-◌, ◌*◌, Bool, true, false, ◌&&◌, List, [], ◌∷◌, ◌++◌, Option, none, some, ◌==◌, ltb,
  if◌then◌else◌, str_eq, any, Update, first_where, update_where,
}
use startlink.Domain.Status.{PushStatus, status_eq, delivered_ok}
use startlink.Records.Rows.{PushRecord, has_key}

-- The results (id, false, false), (id, true, false), (id, false, true) and the error.
pub data ClaimReply : Type 0 where
  claimed : ℕ → ClaimReply
  duplicate : ℕ → ClaimReply
  in_flight : ℕ → ClaimReply
  claim_error : ClaimReply

-- deliveryInFlightStale, two minutes.
abbrev pub in_flight_stale : ℕ
in_flight_stale = 120 * 1000000000

-- The record that the claim wants to insert.
unfoldable pub fresh_record : ℕ → ℕ → PushRecord → PushRecord
fresh_record now id rec = record rec {
  id = id;
  status = PushStatus.sending;
  error_msg = "";
  provider_id = none;
  provider = if str_eq rec.provider "" then rec.channel else rec.provider;
  updated_at = now;
}

-- reclaimStatuses
unfoldable pub may_reclaim : PushStatus → Bool
may_reclaim PushStatus.failed = true
may_reclaim PushStatus.cancelled = true
may_reclaim PushStatus.queued = true
may_reclaim PushStatus.suppressed = true
may_reclaim PushStatus.unreachable = true
may_reclaim PushStatus.expired = true
may_reclaim PushStatus.quota_rejected = true
may_reclaim PushStatus.sending = true
may_reclaim _ = false

unfoldable pub reclaim_update : ℕ → ℕ → PushRecord → Update PushRecord
unfolding may_reclaim
reclaim_update now id rec = record {
  hits = λ r. r.id == id && may_reclaim r.status;
  sets = λ r. record r {
    sub_task_id = rec.sub_task_id;
    content = rec.content;
    status = PushStatus.sending;
    provider = if str_eq rec.provider "" then rec.channel else rec.provider;
    provider_id = none;
    error_msg = "";
    sent_at = none;
    updated_at = now;
  };
}

-- After an update that took no row: read again.
unfoldable pub reread : Bool → ℕ → Option PushRecord → ClaimReply
unfolding delivered_ok
reread fails id none = claim_error
reread fails id (some r) =
    if fails then claim_error else (if delivered_ok r.status then duplicate id else in_flight id)

-- The record of the key that is there already.
unfoldable pub claim_existing :
    (ℕ → Bool)
    → (ℕ → List PushRecord → List PushRecord)
    → ℕ
    → PushRecord
    → Option PushRecord
    → List PushRecord
    → ClaimReply × List PushRecord
unfolding delivered_ok reclaim_update reread
claim_existing f others now rec none rows = (claim_error, rows)
claim_existing f others now rec (some existing) rows =
    if delivered_ok existing.status
    then (duplicate existing.id, rows)
    else (if status_eq existing.status PushStatus.sending
          && ltb (now - existing.updated_at) in_flight_stale
        then (in_flight existing.id, rows)
        else (let u = reclaim_update now existing.id rec in
            let seen = others 2 rows in
            if f 2
            then (claim_error, seen)
            else (if any u.hits seen
                then (claimed existing.id, update_where u.hits u.sets seen)
                else (let again = others 3 seen in
                    (
                      reread (f 3) existing.id (first_where (λ r. r.id == existing.id) again),
                      again,
                    )))))

-- ClaimDelivery. `id` is the key that the database gives to a new row.
unfoldable pub claim_delivery :
    (ℕ → Bool)
    → (ℕ → List PushRecord → List PushRecord)
    → ℕ
    → ℕ
    → PushRecord
    → List PushRecord
    → ClaimReply × List PushRecord
unfolding fresh_record claim_existing
claim_delivery f others now id rec rows =
    let seen = others 0 rows in
    let key = has_key rec.main_task_id rec.user_id rec.channel in
    if f 0
    then (claim_error, seen)
    else (if any key seen
        then (let again = others 1 seen in
            if f 1
            then (claim_error, again)
            else (claim_existing f others now rec (first_where key again) again))
        else (claimed id, seen ++ (fresh_record now id rec ∷ [])))
