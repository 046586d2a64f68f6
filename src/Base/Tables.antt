-- ===== src/Base/Tables.antt =====
-- A database table as the list of its rows in order of their keys, and the SQL statements on it.
use Prim.Native.Nat.{ℕ, suc, ◌+◌}
use mathlib.Core.Path.{◌≡◌, refl}
use mathlib.Core.Logic.{inl, inr}
use mathlib.Core.Bool.{Bool, true, false}
use mathlib.Core.List.{List, [], ◌∷◌, ◌++◌}
use mathlib.Core.Option
use mathlib.Core.Option.{Option, none, some}
use native.Mathlib.Omega.{arith}
use startlink.Base.Tests.{if◌then◌else◌, Bool-cases}
use startlink.Base.Lists.{any}

module _ {ℓ} {A : Type ℓ} where
  -- SELECT ... WHERE test ORDER BY id LIMIT 1
  abbrev pub first_where : (A → Bool) → List A → Option A
  first_where test [] = none
  first_where test (x ∷ xs) = let rest = first_where test xs in if test x then some x else rest

  -- SELECT ... WHERE test
  abbrev pub all_where : (A → Bool) → List A → List A
  all_where test [] = []
  all_where test (x ∷ xs) = let rest = all_where test xs in if test x then x ∷ rest else rest

  -- SELECT SUM(of) ... WHERE test
  abbrev pub sum_where : (A → Bool) → (A → ℕ) → List A → ℕ
  sum_where test of [] = 0
  sum_where test of (x ∷ xs) =
      let rest = sum_where test of xs in if test x then of x + rest else rest

  -- UPDATE ... SET set WHERE test
  abbrev pub update_where : (A → Bool) → (A → A) → List A → List A
  update_where test set [] = []
  update_where test set (x ∷ xs) =
      let rest = update_where test set xs in if test x then set x ∷ rest else x ∷ rest

  -- The rows that the test takes: RowsAffected, COUNT(*).
  abbrev pub count_where : (A → Bool) → List A → ℕ
  count_where test [] = 0
  count_where test (x ∷ xs) = let rest = count_where test xs in if test x then suc rest else rest

  -- DELETE ... WHERE test
  abbrev pub delete_where : (A → Bool) → List A → List A
  delete_where test [] = []
  delete_where test (x ∷ xs) = let rest = delete_where test xs in if test x then rest else x ∷ rest

-- One UPDATE statement: its WHERE clause and its SET clause.
pub record Update {ℓ} (A : Type ℓ) : Type ℓ where
  pub hits : A → Bool
  pub sets : A → A

-- What a statement or a query answers: a value, or the error of the database.
pub data Reply {ℓ} (A : Type ℓ) : Type ℓ where
  ok : A → Reply A
  err : Reply A

module _ {ℓ} {A : Type ℓ} where
  -- What the statement does to one row.
  abbrev pub on_row : Update A → A → A
  on_row u r = if u.hits r then u.sets r else r

  -- `res := db.Updates(...)`, with `res.RowsAffected > 0`; a statement that fails writes nothing.
  -- Every statement here writes updated_at or a status, so the rows that it takes are the rows that
  -- it affects.
  abbrev pub try_execute : Bool → Update A → List A → Reply Bool × List A
  try_execute fails u rows =
      if fails then (err, rows) else (ok (any u.hits rows), update_where u.hits u.sets rows)

  -- A statement that keeps the keys acts on the row that a key finds, and on that row alone.
  pub first_where-update :
      (key : A → Bool) (u : Update A) (rows : List A)
      → ((r : A) → key (u.sets r) ≡ key r)
      → first_where key (update_where u.hits u.sets rows)
        ≡ Option.map (on_row u) (first_where key rows)
  first_where-update key u [] same = refl
  first_where-update key u (r ∷ rows) same =
      ground (arith, same r, first_where-update key u rows same)

module _ {ℓ} {A : Type ℓ} where
  -- A row that a query returns meets its condition.
  pub first_where-test :
      (test : A → Bool) (rows : List A) (r : A) → first_where test rows ≡ some r → test r ≡ true
  first_where-test test [] r h = cc
  first_where-test test (x ∷ rows) r h = elim (Bool-cases (test x)) [
    | inl e ↦ ground arith
    | inr e ↦ first_where-test test rows r (ground arith)
  ]

  pub any-first_where :
      (test hits : A → Bool) (rows : List A) (r : A)
      → first_where test rows ≡ some r
      → hits r ≡ true
      → any hits rows ≡ true
  any-first_where test hits [] r h k = cc
  any-first_where test hits (x ∷ rows) r h k = elim (Bool-cases (test x)) [
    | inl e ↦ ground arith
    | inr e ↦ ground (arith, any-first_where test hits rows r)
  ]

  pub any-false_of_none :
      (test : A → Bool) (rows : List A) → first_where test rows ≡ none → any test rows ≡ false
  any-false_of_none test [] h = refl
  any-false_of_none test (x ∷ rows) h = ground (arith, any-false_of_none test rows)

  pub count_where-append :
      (test : A → Bool) (xs ys : List A)
      → count_where test (xs ++ ys) ≡ count_where test xs + count_where test ys
  count_where-append test [] ys = omega arith
  count_where-append test (x ∷ xs) ys = ground (arith, count_where-append test xs ys)

  pub count_where-update :
      (test hits : A → Bool) (sets : A → A) (rows : List A)
      → ((r : A) → test (sets r) ≡ test r)
      → count_where test (update_where hits sets rows) ≡ count_where test rows
  count_where-update test hits sets [] same = refl
  count_where-update test hits sets (x ∷ rows) same =
      ground (arith, same x, count_where-update test hits sets rows same)

  pub count_where-none :
      (test : A → Bool) (rows : List A) → any test rows ≡ false → count_where test rows ≡ 0
  count_where-none test [] h = refl
  count_where-none test (x ∷ rows) h = ground (arith, count_where-none test rows)

  -- A row appended where no other meets the condition is the one that the query finds.
  pub first_where-append :
      (test : A → Bool) (rows : List A) (r : A)
      → any test rows ≡ false
      → test r ≡ true
      → first_where test (rows ++ (r ∷ [])) ≡ some r
  first_where-append test [] r h k = rw k
  first_where-append test (x ∷ rows) r h k = elim (Bool-cases (test x)) [
    | inl e ↦ ground arith
    | inr e ↦ rw e (first_where-append test rows r (ground arith) k)
  ]
