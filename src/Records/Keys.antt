-- ===== src/Records/Keys.antt =====
-- internal/adapter/repo/task.go: at most one delivery record for a campaign, user and channel, and
-- at most one receipt for a record and event.
use startlink.Base.{
  ℕ, ◌≤◌, String, Bool, false, List, [], ◌∷◌, ◌++◌, Option, none, some, str_eq_iff, ◌≡◌, refl, inl,
  inr, arith, Bool-cases, any, update_where, first_where, count_where, count_where-append,
  count_where-update, count_where-none,
}
use startlink.Domain.Channel.{ChannelType}
use startlink.Records.Rows.{PushRecord, has_key}
use startlink.Records.Claim.{claim_delivery, claim_existing, fresh_record, reclaim_update}

abbrev pub IsKeyed : List PushRecord → Type 0
IsKeyed rows = (m : ℕ) (u : String) (c : ChannelType) → count_where (has_key m u c) rows ≤ 1

-- The other processes keep the keys unique.
abbrev pub KeepKeyed : (ℕ → List PushRecord → List PushRecord) → Type 0
KeepKeyed others = (i : ℕ) (rows : List PushRecord) → IsKeyed rows → IsKeyed (others i rows)

count_key-none :
    (rows : List PushRecord) (m m' : ℕ) (u u' : String) (c c' : ChannelType)
    → m' ≡ m
    → u' ≡ u
    → c' ≡ c
    → any (has_key m' u' c') rows ≡ false
    → count_where (has_key m u c) rows ≡ 0
count_key-none rows m m' u u' c c' em eu ec h =
    rw (← em, ← eu, ← ec) (count_where-none (has_key m' u' c') rows h)

insert-IsKeyed :
    (rows : List PushRecord) (r : PushRecord)
    → any (has_key r.main_task_id r.user_id r.channel) rows ≡ false
    → IsKeyed rows
    → IsKeyed (rows ++ (r ∷ []))
insert-IsKeyed rows r fresh h m u c =
    let sum = count_where-append (has_key m u c) rows (r ∷ []) in
    elim (Bool-cases (has_key m u c r)) [
      | inl same ↦ ground (
        arith,
        sum,
        count_key-none rows m r.main_task_id u r.user_id c r.channel (ground (arith, same))
            (ground (arith, same, str_eq_iff r.user_id u))
            (ground (arith, same, str_eq_iff r.channel c)) fresh,
      )
      | inr other ↦ rw (sum, other) (omega (arith, h m u c))
    ]

-- An update that writes no column of the key keeps the keys unique.
update-IsKeyed :
    (hits : PushRecord → Bool) (sets : PushRecord → PushRecord) (rows : List PushRecord)
    → ((m : ℕ) (u : String) (c : ChannelType) (r : PushRecord)
        → has_key m u c (sets r) ≡ has_key m u c r)
    → IsKeyed rows
    → IsKeyed (update_where hits sets rows)
update-IsKeyed hits sets rows same h m u c =
    rw (count_where-update (has_key m u c) hits sets rows (same m u c)) (h m u c)

claim_existing-IsKeyed :
    (f : ℕ → Bool) (others : ℕ → List PushRecord → List PushRecord) (now : ℕ) (rec : PushRecord)
    (found : Option PushRecord) (rows : List PushRecord)
    → KeepKeyed others
    → IsKeyed rows
    → IsKeyed (claim_existing f others now rec found rows).1
unfolding claim_existing reclaim_update
claim_existing-IsKeyed f others now rec none rows keep h = h
claim_existing-IsKeyed f others now rec (some existing) rows keep h =
    let u = reclaim_update now existing.id rec in
    ground (
      arith,
      keep 2 rows h,
      keep 3 (others 2 rows) (keep 2 rows h),
      update-IsKeyed u.hits u.sets (others 2 rows) (λ m k c r. refl) (keep 2 rows h),
    )

-- A claim keeps the keys unique, on every path of it and whatever the other processes do to the
-- table between its statements, so long as they keep them unique too.
pub claim_delivery-IsKeyed :
    (f : ℕ → Bool) (others : ℕ → List PushRecord → List PushRecord) (now id : ℕ) (rec : PushRecord)
    (rows : List PushRecord)
    → KeepKeyed others
    → IsKeyed rows
    → IsKeyed (claim_delivery f others now id rec rows).1
unfolding claim_delivery fresh_record
claim_delivery-IsKeyed f others now id rec rows keep h =
    let seen = others 0 rows in
    let key = has_key rec.main_task_id rec.user_id rec.channel in
    let hs = keep 0 rows h in
    let ha = keep 1 seen hs in
    elim (Bool-cases (any key seen)) [
      | inl there ↦ ground (
        arith,
        there,
        claim_existing-IsKeyed f others now rec (first_where key (others 1 seen)) (others 1 seen)
            keep ha,
      )
      | inr absent ↦ ground (arith, absent, insert-IsKeyed seen (fresh_record now id rec) absent hs)
    ]
