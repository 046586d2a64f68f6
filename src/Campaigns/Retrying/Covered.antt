-- ===== src/Campaigns/Retrying/Covered.antt =====
-- internal/app/campaign/service.go: whom Retry sends to again, where no call fails and no other process
-- writes.
use startlink.Base.{
  ℕ, suc, ◌<◌, String, Bool, true, false, not, ◌&&◌, ◌||◌, List, [], ◌∷◌, some, ◌==◌, ==_refl,
  str_eq, str_eq_iff, any, any-append, all_where, update_where, All, length, Bool-cases, ◌≡◌, refl,
  ap, ◌∙◌, ◌⊎◌, arith, inl, inr, if◌then◌else◌,
}
use startlink.Domain.Status.{TaskStatus, is_retryable}
use startlink.Tasks.Rows.{MainTask, SubTask, task_eq}
use startlink.Tasks.Main.{get_main_task}
use startlink.Tasks.Sub.{create_sub_tasks, reset_failed_sub_tasks, reset_update}
use startlink.Records.Outcomes.{distinct, list_failed_user_ids}
use startlink.Campaigns.{
  Services, World, done, and_then, get, on_subs, read_subs, read_records, quiet, and_then-keeps,
}
use startlink.Campaigns.Realigning.{is_sub_in}
use startlink.Campaigns.Retrying.{
  parse_sub_user_ids, users_in, extra_users, next_shard, retry_shards, create_shards, add_shards,
  with_users, list_push_failed, with_failed, retry_if, retry,
}
use startlink.Campaigns.Retrying.Kept.{reopen_with-subs}
use startlink.Campaigns.Retrying.Shards.{Shard, retry_shards-Cut}

-- A sub task of the campaign that waits for a worker, with the user among its users.
unfoldable pub covers : ℕ → String → SubTask → Bool
unfolding parse_sub_user_ids
covers id u t =
    t.main_task_id == id
    && task_eq t.status TaskStatus.pending
    && any (str_eq u) (parse_sub_user_ids t.user_ids)

reset-covers :
    (id : ℕ) (u : String) (subs : List SubTask)
    → any (str_eq u) (users_in (all_where (is_sub_in id TaskStatus.failed) subs)) ≡ true
    → any (covers id u) (update_where (reset_update id).hits (reset_update id).sets subs) ≡ true
unfolding users_in is_sub_in reset_update covers
reset-covers id u [] h = cc
reset-covers id u (t ∷ subs) h = ground (
  arith,
  any-append (str_eq u) (parse_sub_user_ids t.user_ids)
      (users_in (all_where (is_sub_in id TaskStatus.failed) subs)),
  reset-covers id u subs,
  ==_refl id,
)

shards-cover :
    (size id shard : ℕ) (u : String) (ts : List SubTask)
    → All (Shard size id shard) ts
    → any (str_eq u) (users_in ts) ≡ true
    → any (covers id u) ts ≡ true
unfolding users_in covers
shards-cover size id shard u [] h k = cc
shards-cover size id shard u (t ∷ ts) (h, hs) k = ground (
  arith,
  any-append (str_eq u) (parse_sub_user_ids t.user_ids) (users_in ts),
  shards-cover size id shard u ts hs,
  h.of_main,
  h.waits,
  ==_refl id,
)

distinct-member : (u : String) (us : List String) → any (str_eq u) (distinct us) ≡ any (str_eq u) us
unfolding distinct
distinct-member u [] = refl
distinct-member u (v ∷ us) = elim (Bool-cases (any (str_eq v) (distinct us))) [
  | inl e ↦ elim (Bool-cases (str_eq u v)) [
    | inl same ↦ let twin = (str_eq_iff u v).0 same in rw (e, same) (rw twin e)
    | inr other ↦ rw (e, other) (distinct-member u us)
  ]
  | inr e ↦ rw e (ap (λ b. str_eq u v || b) (distinct-member u us))
]

all_where-member :
    (test : String → Bool) (u : String) (us : List String)
    → test u ≡ true
    → any (str_eq u) us ≡ true
    → any (str_eq u) (all_where test us) ≡ true
all_where-member test u [] e h = cc
all_where-member test u (v ∷ us) e h = elim (Bool-cases (str_eq u v)) [
  | inl same ↦ ground (arith, same, e, ap test ((str_eq_iff u v).0 same))
  | inr other ↦ ground (arith, other, h, all_where-member test u us e)
]

or_true : (b : Bool) → (b || true) ≡ true
or_true true = refl
or_true false = refl

module _ (s : Services) where
  add_shards-covers :
      (id : ℕ) (u : String) (users : List String) (w : World)
      → 0 < s.batch_size
      → (any (covers id u) w.subs ≡ true) ⊎ (any (str_eq u) users ≡ true)
      → any (covers id u) (add_shards (quiet s) id users w).1.subs ≡ true
  unfolding add_shards read_subs create_shards create_sub_tasks retry_shards
  add_shards-covers id u [] w positive (inl h) = h
  add_shards-covers id u [] w positive (inr h) = cc
  add_shards-covers id u (x ∷ xs) w positive h =
      let (all, cut, above) =
        retry_shards-Cut s.batch_size (s.new_id (suc w.calls)) id (x ∷ xs) w.subs positive in
      let shards =
        retry_shards (length (x ∷ xs)) s.batch_size (s.new_id (suc w.calls)) 0 id
          (next_shard id w.subs) (x ∷ xs) in
      any-append (covers id u) w.subs shards ∙ elim h [
        | inl old ↦ rw old refl
        | inr new ↦
            rw
              (shards-cover s.batch_size id (next_shard id w.subs) u shards cut
                (ap (any (str_eq u)) all ∙ new))
              (or_true (any (covers id u) w.subs))
      ]

  with_users-covers :
      (id : ℕ) (task : MainTask) (f e : List String) (u : String) (w : World)
      → 0 < s.batch_size
      → (any (str_eq u) (users_in (all_where (is_sub_in task.id TaskStatus.failed) w.subs)) ≡ true)
        ⊎ (any (str_eq u) e ≡ true)
      → any (covers task.id u) (with_users (quiet s) id task f e w).1.subs ≡ true
  unfolding with_users on_subs reset_failed_sub_tasks
  with_users-covers id task f e u w positive h =
      let v = record w {
        calls = suc w.calls;
        subs = update_where (reset_update task.id).hits (reset_update task.id).sets w.subs;
      } in
      ap (any (covers task.id u)) (
        and_then-keeps (λ v. v.subs) (add_shards (quiet s) task.id e v) _
          (λ new v. reopen_with-subs s id task f e _ new v))
      ∙ add_shards-covers task.id u e v positive
          (elim h [ inl old ↦ inl (reset-covers task.id u w.subs old) | inr new ↦ inr new ])

  extra-covers :
      (id : ℕ) (task : MainTask) (users : List String) (u : String) (w : World)
      → 0 < s.batch_size
      → (any (str_eq u) (users_in (all_where (is_sub_in task.id TaskStatus.failed) w.subs)) ≡ true)
        ⊎ (any (str_eq u) users ≡ true)
      → any
          (covers task.id u)
          (with_users
            (quiet s)
            id
            task
            (distinct (users_in (all_where (is_sub_in task.id TaskStatus.failed) w.subs)))
            (extra_users
              (distinct (users_in (all_where (is_sub_in task.id TaskStatus.failed) w.subs)))
              users)
            w).1.subs
        ≡ true
  unfolding extra_users
  extra-covers id task users u w positive h =
      let fs = users_in (all_where (is_sub_in task.id TaskStatus.failed) w.subs) in
      with_users-covers id task _ _ u w positive (elim h [
        | inl old ↦ inl old
        | inr new ↦ elim (Bool-cases (any (str_eq u) fs)) [
          | inl old ↦ inl old
          | inr other ↦ inr (all_where-member _ u users (ap not (distinct-member u fs ∙ other)) new)
        ]
      ])

  with_failed-covers :
      (id : ℕ) (task : MainTask) (u : String) (w : World)
      → 0 < s.batch_size
      → (any (str_eq u) (users_in (all_where (is_sub_in task.id TaskStatus.failed) w.subs)) ≡ true)
        ⊎ ((s.has_push_repo ≡ true)
            × (any (str_eq u) (list_failed_user_ids task.id w.records) ≡ true))
      → any
          (covers task.id u)
          (with_failed
            (quiet s)
            id
            task
            (all_where (is_sub_in task.id TaskStatus.failed) w.subs)
            w).1.subs
        ≡ true
  unfolding with_failed list_push_failed read_records
  with_failed-covers id task u w positive h = go s.has_push_repo h
    where
      fs : List String
      fs = users_in (all_where (is_sub_in task.id TaskStatus.failed) w.subs)

      go :
          (b : Bool)
          → (any (str_eq u) fs ≡ true)
            ⊎ ((b ≡ true) × (any (str_eq u) (list_failed_user_ids task.id w.records) ≡ true))
          → any
              (covers task.id u)
              (and_then
                (if b
                  then read_records (quiet s) (list_failed_user_ids task.id) w
                  else (done [], w))
                (λ push_failed.
                  with_users
                    (quiet s)
                    id
                    task
                    (distinct fs)
                    (extra_users (distinct fs) push_failed))).1.subs
            ≡ true
      go true (inl old) =
          extra-covers id task (list_failed_user_ids task.id w.records) u
            (record w { calls = suc w.calls }) positive (inl old)
      go true (inr new) =
          extra-covers id task (list_failed_user_ids task.id w.records) u
            (record w { calls = suc w.calls }) positive (inr new.1)
      go false (inl old) = extra-covers id task [] u w positive (inl old)
      go false (inr new) = cc

-- Where no call of the database fails and no other process writes, a retry of a campaign that failed
-- in whole or in part leaves every user of its failed sub tasks, and every user whose records tell of
-- a failure and of no success, in a sub task of the campaign that waits for a worker.
pub retry-Covers :
    (s : Services) (id : ℕ) (task : MainTask) (u : String) (w : World)
    → 0 < s.batch_size
    → get_main_task id w.mains ≡ some task
    → is_retryable task.status ≡ true
    → (any (str_eq u) (users_in (all_where (is_sub_in task.id TaskStatus.failed) w.subs)) ≡ true)
      ⊎ ((s.has_push_repo ≡ true)
          × (any (str_eq u) (list_failed_user_ids task.id w.records) ≡ true))
    → any (covers task.id u) (retry (quiet s) id w).1.subs ≡ true
unfolding retry get retry_if read_subs
retry-Covers s id task u w positive there failed h =
    rw (there, failed)
      (with_failed-covers s id task u (record w { calls = suc (suc w.calls) }) positive h)
