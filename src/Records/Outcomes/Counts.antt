-- ===== src/Records/Outcomes/Counts.antt =====
-- internal/adapter/repo/task.go: whom the counts of a campaign's users count, and how often.
use startlink.Base.{
  ℕ, String, Bool, true, false, not, ◌&&◌, ◌||◌, List, [], ◌∷◌, if◌then◌else◌, str_eq, str_eq_iff,
  any, count_where, count_where-none, ◌≡◌, refl, ap, ◌∙◌, arith, inl, inr, Bool-cases,
}
use startlink.Domain.Status.{PushStatus, status_eq}
use startlink.Records.Rows.{PushRecord}
use startlink.Records.Outcomes.{
  is_of, is_success, distinct, users_where, success_user_ids, has_success, list_failed_user_ids,
  has_reached, exclusive_user_ids,
}

abbrev pub one_if : Bool → ℕ
one_if b = if b then 1 else 0

count_where-any-false :
    (test : String → Bool) (us : List String) → count_where test us ≡ 0 → any test us ≡ false
count_where-any-false test [] h = refl
count_where-any-false test (u ∷ us) h = ground (arith, count_where-any-false test us)

any-distinct :
    (v : String) (us : List String)
    → count_where (str_eq v) (distinct us) ≡ one_if (any (str_eq v) us)
    → any (str_eq v) (distinct us) ≡ true
    → any (str_eq v) us ≡ true
any-distinct v us counted there =
    ground (arith, counted, there, count_where-any-false (str_eq v) (distinct us))

count_where-distinct :
    (v : String) (us : List String)
    → count_where (str_eq v) (distinct us) ≡ one_if (any (str_eq v) us)
unfolding distinct
count_where-distinct v [] = refl
count_where-distinct v (u ∷ us) =
    let ih = count_where-distinct v us in
    elim (Bool-cases (str_eq v u)) [
      | inr other ↦ ground (arith, ih)
      | inl e ↦
          let same : v ≡ u = (str_eq_iff v u).0 e in
          elim (Bool-cases (any (str_eq u) (distinct us))) [
            | inl there ↦
                let held : any (str_eq v) us ≡ true = any-distinct v us ih cc in
                ground (arith, ih, held, there, e)
            | inr new ↦
                let none : any (str_eq v) (distinct us) ≡ false = cc in
                ground (arith, new, e, count_where-none (str_eq v) (distinct us) none)
          ]
    ]

any-users_where :
    (v : String) (test : PushRecord → Bool) (rows : List PushRecord)
    → any (str_eq v) (users_where test rows) ≡ any (λ r. test r && str_eq v r.user_id) rows
unfolding users_where
any-users_where v test [] = refl
any-users_where v test (r ∷ rows) = ground (arith, any-users_where v test rows)

any-rows :
    (test other : PushRecord → Bool) (rows : List PushRecord)
    → ((r : PushRecord) → test r ≡ other r)
    → any test rows ≡ any other rows
any-rows test other [] same = refl
any-rows test other (r ∷ rows) same = ground (arith, same r, any-rows test other rows same)

-- A row of the campaign of which `test` holds is of the user `v`.
unfoldable pub has_row : (PushRecord → Bool) → ℕ → String → List PushRecord → Bool
unfolding is_of
has_row test main_id v rows = any (λ r. (is_of main_id r && test r) && str_eq v r.user_id) rows

is_of-main : (main_id : ℕ) (f : PushRecord) → is_of main_id f ≡ true → f.main_task_id ≡ main_id
unfolding is_of
is_of-main main_id f h = ground (arith, h)

has_success-has_row :
    (main_id : ℕ) (v : String) (rows : List PushRecord) (f : PushRecord)
    → is_of main_id f ≡ true
    → str_eq v f.user_id ≡ true
    → has_success rows f ≡ has_row (λ s. is_success s.status) main_id v rows
unfolding has_success has_row
has_success-has_row main_id v rows f of_main of_user =
    let mains : f.main_task_id ≡ main_id = is_of-main main_id f of_main in
    let users : v ≡ f.user_id = (str_eq_iff v f.user_id).0 of_user in
    any-rows (λ s. is_of f.main_task_id s && is_success s.status && str_eq f.user_id s.user_id)
      (λ s. (is_of main_id s && is_success s.status) && str_eq v s.user_id) rows
      (λ s. ground (arith, ap (λ n. is_of n s) mains, ap (λ u. str_eq u s.user_id) users))

any-unless :
    (of wanted barred mine : PushRecord → Bool) (known : Bool) (us : List PushRecord)
    → ((u : PushRecord) → of u ≡ true → mine u ≡ true → barred u ≡ known)
    → any (λ u. (of u && wanted u && not (barred u)) && mine u) us
      ≡ (any (λ u. (of u && wanted u) && mine u) us && not known)
any-unless of wanted barred mine known [] same = refl
any-unless of wanted barred mine known (u ∷ us) same =
    ground (arith, any-unless of wanted barred mine known us same, same u)

any-failed :
    (main_id : ℕ) (v : String) (rows fs : List PushRecord)
    → any
        (λ f.
          (is_of main_id f && status_eq f.status PushStatus.failed && not (has_success rows f))
          && str_eq v f.user_id)
        fs
      ≡ (has_row (λ f. status_eq f.status PushStatus.failed) main_id v fs
          && not (has_row (λ s. is_success s.status) main_id v rows))
unfolding has_row
any-failed main_id v rows fs =
    any-unless (is_of main_id) (λ f. status_eq f.status PushStatus.failed) (has_success rows)
      (λ f. str_eq v f.user_id) (has_row (λ s. is_success s.status) main_id v rows) fs
      (has_success-has_row main_id v rows)

||-both :
    (o s f e p q : Bool)
    → ((o && e && (s || f)) || (p || q)) ≡ ((((o && s) && e) || p) || (((o && f) && e) || q))
||-both false s f e p q = refl
||-both true s f false p q = ground arith
||-both true true f true p q = refl
||-both true false f true p q = ground arith

has_reached-has_row :
    (main_id : ℕ) (v : String) (u : PushRecord) (rows : List PushRecord)
    → str_eq v u.user_id ≡ true
    → has_reached main_id rows u ≡ (
        has_row (λ s. is_success s.status) main_id v rows
        || has_row (λ s. status_eq s.status PushStatus.failed) main_id v rows)
unfolding has_reached has_row
has_reached-has_row main_id v u [] of_user = refl
has_reached-has_row main_id v u (s ∷ rows) of_user =
    let users : v ≡ u.user_id = (str_eq_iff v u.user_id).0 of_user in
    let same : str_eq u.user_id s.user_id ≡ str_eq v s.user_id = cc in
    let rest : any
          (λ r.
            is_of main_id r
            && str_eq u.user_id r.user_id
            && (is_success r.status || status_eq r.status PushStatus.failed))
          rows
        ≡ (has_row (λ r. is_success r.status) main_id v rows
            || has_row (λ r. status_eq r.status PushStatus.failed) main_id v rows) =
      has_reached-has_row main_id v u rows of_user in
    rw (same, rest)
      (||-both (is_of main_id s) (is_success s.status) (status_eq s.status PushStatus.failed)
        (str_eq v s.user_id) (has_row (λ r. is_success r.status) main_id v rows)
        (has_row (λ r. status_eq r.status PushStatus.failed) main_id v rows))

any-exclusive :
    (main_id : ℕ) (v : String) (status : PushStatus) (rows us : List PushRecord)
    → any
        (λ u.
          (is_of main_id u && status_eq u.status status && not (has_reached main_id rows u))
          && str_eq v u.user_id)
        us
      ≡ (has_row (λ u. status_eq u.status status) main_id v us
          && not (
              has_row (λ s. is_success s.status) main_id v rows
              || has_row (λ s. status_eq s.status PushStatus.failed) main_id v rows))
unfolding has_row
any-exclusive main_id v status rows us =
    any-unless (is_of main_id) (λ u. status_eq u.status status) (has_reached main_id rows)
      (λ u. str_eq v u.user_id)
      (has_row (λ s. is_success s.status) main_id v rows
        || has_row (λ s. status_eq s.status PushStatus.failed) main_id v rows)
      us (λ u of_main of_user. has_reached-has_row main_id v u rows of_user)

count_where-ids :
    (test : PushRecord → Bool) (v : String) (rows : List PushRecord)
    → count_where (str_eq v) (distinct (users_where test rows))
      ≡ one_if (any (λ r. test r && str_eq v r.user_id) rows)
count_where-ids test v rows =
    count_where-distinct v (users_where test rows) ∙ ap one_if (any-users_where v test rows)

-- Of the rows of a campaign that are no test, whatever their order and their statuses: a user is
-- listed as reached once if a row of theirs was sent, delivered or clicked and else not at all;
-- listed as failed once if a row of theirs failed and none was sent, delivered or clicked, and
-- else not at all; and listed for a further status once if a row of theirs has it and none was
-- sent, delivered, clicked or failed, and else not at all.
pub user_outcomes_lem :
    (main_id : ℕ) (status : PushStatus) (v : String) (rows : List PushRecord)
    → (count_where (str_eq v) (success_user_ids main_id rows)
        ≡ one_if (has_row (λ s. is_success s.status) main_id v rows))
      × (count_where (str_eq v) (list_failed_user_ids main_id rows)
          ≡ one_if (
              has_row (λ f. status_eq f.status PushStatus.failed) main_id v rows
              && not (has_row (λ s. is_success s.status) main_id v rows)))
      × (count_where (str_eq v) (exclusive_user_ids main_id status rows)
          ≡ one_if (
              has_row (λ u. status_eq u.status status) main_id v rows
              && not (
                  has_row (λ s. is_success s.status) main_id v rows
                  || has_row (λ s. status_eq s.status PushStatus.failed) main_id v rows)))
unfolding success_user_ids list_failed_user_ids exclusive_user_ids has_row
user_outcomes_lem main_id status v rows = (
  count_where-ids (λ r. is_of main_id r && is_success r.status) v rows,
  count_where-ids
        (λ f. is_of main_id f && status_eq f.status PushStatus.failed && not (has_success rows f)) v
        rows
      ∙ ap one_if (any-failed main_id v rows rows),
  count_where-ids
        (λ u. is_of main_id u && status_eq u.status status && not (has_reached main_id rows u)) v
        rows
      ∙ ap one_if (any-exclusive main_id v status rows rows),
)
