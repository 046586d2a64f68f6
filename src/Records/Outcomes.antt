-- ===== src/Records/Outcomes.antt =====
-- internal/adapter/repo/task.go: ListFailedUserIDs and CountUserOutcomes.
use startlink.Base.{
  ℕ, suc, ◌+◌, String, Bool, true, false, not, ◌&&◌, ◌||◌, List, [], ◌∷◌, ◌==◌, if◌then◌else◌,
  str_eq, length, any, count_where,
}
use startlink.Domain.Status.{PushStatus, status_eq}
use startlink.Records.Rows.{PushRecord}
pub mod Counts

-- `main_task_id = ? AND is_test = 0`
unfoldable pub is_of : ℕ → PushRecord → Bool
is_of main_id r = r.main_task_id == main_id && not r.is_test

-- `status IN (sent, delivered, clicked)`
unfoldable pub is_success : PushStatus → Bool
is_success PushStatus.sent = true
is_success PushStatus.delivered = true
is_success PushStatus.clicked = true
is_success _ = false

-- SELECT DISTINCT
unfoldable pub distinct : List String → List String
distinct [] = []
distinct (u ∷ us) = let rest = distinct us in if any (str_eq u) rest then rest else u ∷ rest

-- SELECT user_id ... WHERE test
unfoldable pub users_where : (PushRecord → Bool) → List PushRecord → List String
users_where test [] = []
users_where test (r ∷ rows) =
    let rest = users_where test rows in if test r then r.user_id ∷ rest else rest

-- SELECT DISTINCT user_id ... WHERE the user has a success
unfoldable pub success_user_ids : ℕ → List PushRecord → List String
unfolding distinct users_where is_of is_success
success_user_ids main_id rows =
    distinct (users_where (λ r. is_of main_id r && is_success r.status) rows)

-- The subquery of NOT EXISTS.
unfoldable pub has_success : List PushRecord → PushRecord → Bool
unfolding is_of is_success
has_success rows f =
    any (λ s. is_of f.main_task_id s && is_success s.status && str_eq f.user_id s.user_id) rows

-- ListFailedUserIDs
unfoldable pub list_failed_user_ids : ℕ → List PushRecord → List String
unfolding distinct users_where is_of has_success
list_failed_user_ids main_id rows = distinct (
    users_where
      (λ f. is_of main_id f && status_eq f.status PushStatus.failed && not (has_success rows f))
      rows)

-- The subquery of countExclusive's NOT EXISTS.
unfoldable pub has_reached : ℕ → List PushRecord → PushRecord → Bool
unfolding is_of is_success
has_reached main_id rows u =
    any
      (λ s.
        is_of main_id s
        && str_eq u.user_id s.user_id
        && (is_success s.status || status_eq s.status PushStatus.failed))
      rows

-- Whom countExclusive counts.
unfoldable pub exclusive_user_ids : ℕ → PushStatus → List PushRecord → List String
unfolding distinct users_where is_of has_reached
exclusive_user_ids main_id status rows = distinct (
    users_where
      (λ u. is_of main_id u && status_eq u.status status && not (has_reached main_id rows u)) rows)

-- countExclusive
unfoldable pub count_exclusive : ℕ → PushStatus → List PushRecord → ℕ
unfolding exclusive_user_ids
count_exclusive main_id status rows = length (exclusive_user_ids main_id status rows)

-- port.UserPushOutcomes
pub record UserPushOutcomes : Type 0 where
  pub has_records : Bool
  pub success_users : ℕ
  pub fail_users : ℕ
  pub suppressed_users : ℕ
  pub unreachable_users : ℕ
  pub expired_users : ℕ
  pub quota_rejected_users : ℕ

abbrev pub no_outcomes : UserPushOutcomes
no_outcomes = record {
  has_records = false;
  success_users = 0;
  fail_users = 0;
  suppressed_users = 0;
  unreachable_users = 0;
  expired_users = 0;
  quota_rejected_users = 0;
}

-- CountUserOutcomes, with no statement that fails and no write between its queries.
unfoldable pub count_user_outcomes : ℕ → List PushRecord → UserPushOutcomes
unfolding is_of success_user_ids list_failed_user_ids count_exclusive
count_user_outcomes main_id rows =
    if count_where (is_of main_id) rows == 0 then no_outcomes else record {
      has_records = true;
      success_users = length (success_user_ids main_id rows);
      fail_users = length (list_failed_user_ids main_id rows);
      suppressed_users = count_exclusive main_id PushStatus.suppressed rows;
      unreachable_users = count_exclusive main_id PushStatus.unreachable rows;
      expired_users = count_exclusive main_id PushStatus.expired rows;
      quota_rejected_users = count_exclusive main_id PushStatus.quota_rejected rows;
    }
