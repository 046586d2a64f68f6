-- ===== src/Domain/RampUp/Rate.antt =====
-- internal/domain/rampup.go: what NormalizeRampUp keeps, and the rate that ResolveRampUpQPS gives.
use startlink.Base.{
  ℕ, true, false, ◌&&◌, List, [], ◌∷◌, Option, none, some, Option-cases, inl, inr, ℤ, pos, ltb_ℤ,
  eq_ℤ, if◌then◌else◌, ◌≡◌, refl, ◌∙◌, ap, arith,
}
use startlink.Domain.RampUp.{
  RampUpStage, insert_stage, sort_stages, collect_stages, collect_all, normalize_ramp_up, climb,
  cap_qps, elapsed_minutes, resolve_ramp_up_qps,
}

-- The stage that was configured last for a minute.
unfoldable pub last_at : ℤ → List RampUpStage → Option RampUpStage
last_at t [] = none
last_at t (s ∷ ss) = elim (last_at t ss) [
  | none ↦ if eq_ℤ s.after_min t then some s else none
  | some r ↦ some r
]

-- Each minute is after the one before.
abbrev pub RisesFrom : ℤ → List RampUpStage → Type 0
RisesFrom t [] = Unit
RisesFrom t (s ∷ ss) = (ltb_ℤ t s.after_min ≡ true) × RisesFrom s.after_min ss

abbrev pub IsRising : List RampUpStage → Type 0
IsRising [] = Unit
IsRising (s ∷ ss) = RisesFrom s.after_min ss

-- No minute is before the one before.
abbrev SortedFrom : ℤ → List RampUpStage → Type 0
SortedFrom t [] = Unit
SortedFrom t (s ∷ ss) = (ltb_ℤ s.after_min t ≡ false) × SortedFrom s.after_min ss

abbrev IsSorted : List RampUpStage → Type 0
IsSorted [] = Unit
IsSorted (s ∷ ss) = SortedFrom s.after_min ss

last_at-insert_stage :
    (t : ℤ) (s : RampUpStage) (ss : List RampUpStage)
    → last_at t (insert_stage s ss) ≡ last_at t (s ∷ ss)
unfolding insert_stage last_at
last_at-insert_stage t s [] = refl
last_at-insert_stage t s (r ∷ ss) = ground (arith, last_at-insert_stage t s ss)

last_at-cons :
    (t : ℤ) (s : RampUpStage) (xs ys : List RampUpStage)
    → last_at t xs ≡ last_at t ys
    → last_at t (s ∷ xs) ≡ last_at t (s ∷ ys)
unfolding last_at
last_at-cons t s xs ys e = rw e

last_at-sort_stages : (t : ℤ) (ss : List RampUpStage) → last_at t (sort_stages ss) ≡ last_at t ss
unfolding sort_stages
last_at-sort_stages t [] = refl
last_at-sort_stages t (s ∷ ss) =
    last_at-insert_stage t s (sort_stages ss)
    ∙ last_at-cons t s (sort_stages ss) ss (last_at-sort_stages t ss)

last_at-collect_stages :
    (t : ℤ) (s : RampUpStage) (ss : List RampUpStage)
    → last_at t (collect_stages s ss) ≡ last_at t (s ∷ ss)
unfolding collect_stages last_at
last_at-collect_stages t s [] = refl
last_at-collect_stages t s (r ∷ ss) = ground (arith, last_at-collect_stages t r ss)

last_at-collect_all : (t : ℤ) (ss : List RampUpStage) → last_at t (collect_all ss) ≡ last_at t ss
unfolding collect_all
last_at-collect_all t [] = refl
last_at-collect_all t (s ∷ ss) = last_at-collect_stages t s ss

SortedFrom-insert_stage :
    (t : ℤ) (s : RampUpStage) (ss : List RampUpStage)
    → ltb_ℤ s.after_min t ≡ false
    → SortedFrom t ss
    → SortedFrom t (insert_stage s ss)
unfolding insert_stage
SortedFrom-insert_stage t s [] h k = (h, tt)
SortedFrom-insert_stage t s (r ∷ ss) h k = ground (arith, SortedFrom-insert_stage r.after_min s ss)

insert_stage-IsSorted :
    (s : RampUpStage) (ss : List RampUpStage) → IsSorted ss → IsSorted (insert_stage s ss)
unfolding insert_stage
insert_stage-IsSorted s [] h = tt
insert_stage-IsSorted s (r ∷ ss) h = ground (arith, SortedFrom-insert_stage r.after_min s ss)

sort_stages-IsSorted : (ss : List RampUpStage) → IsSorted (sort_stages ss)
unfolding sort_stages
sort_stages-IsSorted [] = tt
sort_stages-IsSorted (s ∷ ss) = insert_stage-IsSorted s (sort_stages ss) (sort_stages-IsSorted ss)

RisesFrom-collect_stages :
    (t : ℤ) (s : RampUpStage) (ss : List RampUpStage)
    → ltb_ℤ t s.after_min ≡ true
    → SortedFrom s.after_min ss
    → RisesFrom t (collect_stages s ss)
unfolding collect_stages
RisesFrom-collect_stages t s [] h k = (h, tt)
RisesFrom-collect_stages t s (r ∷ ss) h k =
    ground (arith, RisesFrom-collect_stages t r ss, RisesFrom-collect_stages s.after_min r ss)

collect_stages-IsRising :
    (s : RampUpStage) (ss : List RampUpStage)
    → SortedFrom s.after_min ss
    → IsRising (collect_stages s ss)
unfolding collect_stages
collect_stages-IsRising s [] k = tt
collect_stages-IsRising s (r ∷ ss) k =
    ground (arith, collect_stages-IsRising r ss, RisesFrom-collect_stages s.after_min r ss)

-- The minutes of the normalised stages rise strictly, and for every minute they hold the stage
-- that was configured last for it.
pub normalize_ramp_up_lem :
    (ss : List RampUpStage) (t : ℤ)
    → IsRising (normalize_ramp_up ss) × (last_at t (normalize_ramp_up ss) ≡ last_at t ss)
unfolding normalize_ramp_up
normalize_ramp_up_lem ss t = (
  rising (sort_stages ss) (sort_stages-IsSorted ss),
  last_at-collect_all t (sort_stages ss) ∙ last_at-sort_stages t ss,
)
  where
    rising : (rs : List RampUpStage) → IsSorted rs → IsRising (collect_all rs)
    rising [] h = tt
    rising (r ∷ rs) h = collect_stages-IsRising r rs h

-- The stage with the latest minute that has come, whatever the order of the stages.
unfoldable pub latest : ℕ → List RampUpStage → Option RampUpStage
latest now [] = none
latest now (s ∷ ss) =
    let rest = latest now ss in
    if ltb_ℤ (pos now) s.after_min then rest else elim rest [
      | none ↦ some s
      | some r ↦ if ltb_ℤ r.after_min s.after_min then some s else some r
    ]

-- The rate of a stage, or one to fall back on.
abbrev pub rate_or : ℤ → Option RampUpStage → ℤ
rate_or qps none = qps
rate_or qps (some s) = s.qps

latest-late :
    (now : ℕ) (t : ℤ) (ss : List RampUpStage)
    → ltb_ℤ (pos now) t ≡ true
    → RisesFrom t ss
    → latest now ss ≡ none
unfolding latest
latest-late now t [] h k = refl
latest-late now t (s ∷ ss) h k = ground (arith, latest-late now s.after_min ss)

latest-after :
    (now : ℕ) (t : ℤ) (ss : List RampUpStage) (r : RampUpStage)
    → RisesFrom t ss
    → latest now ss ≡ some r
    → ltb_ℤ t r.after_min ≡ true
unfolding latest
latest-after now t [] r k e = cc
latest-after now t (s ∷ ss) r k e = elim (Option-cases (latest now ss)) [
  | inl none_left ↦ ground (arith, none_left)
  | inr (q, found) ↦ ground (arith, found, latest-after now s.after_min ss q k.1 found)
]

climb-latest :
    (now : ℕ) (qps t : ℤ) (ss : List RampUpStage)
    → RisesFrom t ss
    → climb now qps ss ≡ rate_or qps (latest now ss)
unfolding climb latest
climb-latest now qps t [] k = refl
climb-latest now qps t (s ∷ ss) k = elim (Option-cases (latest now ss)) [
  | inl none_left ↦
      ground (
        arith,
        none_left,
        latest-late now s.after_min ss,
        climb-latest now s.qps s.after_min ss k.1,
      )
  | inr (q, found) ↦ ground (
    arith,
    found,
    latest-late now s.after_min ss,
    latest-after now s.after_min ss q k.1 found,
    climb-latest now s.qps s.after_min ss k.1,
  )
]

climb-first :
    (now : ℕ) (s : RampUpStage) (ss : List RampUpStage)
    → IsRising (s ∷ ss)
    → climb now s.qps (s ∷ ss) ≡ rate_or s.qps (latest now (s ∷ ss))
unfolding climb latest
climb-first now s ss k = elim (Option-cases (latest now ss)) [
  | inl none_left ↦
      ground
        (arith, none_left, latest-late now s.after_min ss, climb-latest now s.qps s.after_min ss k)
  | inr (q, found) ↦ ground (
    arith,
    found,
    latest-late now s.after_min ss,
    latest-after now s.after_min ss q k found,
    climb-latest now s.qps s.after_min ss k,
  )
]

-- Where the minutes of the stages rise, and there is a stage, the rate is that of the stage with
-- the latest minute that has come, or of the first stage before any has come; a positive pace
-- caps it. With no stages the rate is the pace.
pub resolve_ramp_up_qps_lem :
    (s : RampUpStage) (ss : List RampUpStage) (elapsed pace : ℤ)
    → IsRising (s ∷ ss)
    → (resolve_ramp_up_qps (s ∷ ss) elapsed pace
        ≡ cap_qps pace (rate_or s.qps (latest (elapsed_minutes elapsed) (s ∷ ss))))
      × (ltb_ℤ (pos 0) pace && ltb_ℤ pace (resolve_ramp_up_qps (s ∷ ss) elapsed pace) ≡ false)
      × (resolve_ramp_up_qps [] elapsed pace ≡ pace)
unfolding resolve_ramp_up_qps cap_qps
resolve_ramp_up_qps_lem s ss elapsed pace k =
    (ap (cap_qps pace) (climb-first (elapsed_minutes elapsed) s ss k), ground arith, refl)
