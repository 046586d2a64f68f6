-- ===== src/Domain/RampUp.antt =====
-- internal/domain/rampup.go: the stages by which a campaign's rate rises. A Go int is an integer.
pub mod Rate
use startlink.Base.{
  ℕ, ◌/◌, ◌+◌, Bool, true, false, not, ◌&&◌, ◌||◌, List, [], ◌∷◌, ltb, leb, ℤ, pos, negsuc, ltb_ℤ,
  eq_ℤ, or_zero, length, if◌then◌else◌,
}

-- RampUpStage
pub record RampUpStage : Type 0 where
  pub after_min : ℤ
  pub qps : ℤ

abbrev max_ramp_up_stages : ℕ
max_ramp_up_stages = 20

-- sort.SliceStable by after_min: a stage stays before those that came later with the same minute.
unfoldable pub insert_stage : RampUpStage → List RampUpStage → List RampUpStage
insert_stage s [] = s ∷ []
insert_stage s (t ∷ ts) =
    let rest = insert_stage s ts in if ltb_ℤ t.after_min s.after_min then t ∷ rest else s ∷ t ∷ ts

unfoldable pub sort_stages : List RampUpStage → List RampUpStage
unfolding insert_stage
sort_stages [] = []
sort_stages (s ∷ ss) = insert_stage s (sort_stages ss)

-- The loop that collects `out`, with `last` its last element.
unfoldable pub collect_stages : RampUpStage → List RampUpStage → List RampUpStage
collect_stages last [] = last ∷ []
collect_stages last (s ∷ ss) =
    let rest = collect_stages s ss in if eq_ℤ last.after_min s.after_min then rest else last ∷ rest

unfoldable pub collect_all : List RampUpStage → List RampUpStage
unfolding collect_stages
collect_all [] = []
collect_all (s ∷ ss) = collect_stages s ss

-- NormalizeRampUp
unfoldable pub normalize_ramp_up : List RampUpStage → List RampUpStage
unfolding sort_stages collect_all
normalize_ramp_up stages = collect_all (sort_stages stages)

-- What ValidateRampUp refuses, with the number of the stage.
pub data RampUpError : Type 0 where
  too_many : RampUpError
  negative_after_min bad_qps : ℕ → RampUpError
  accepted : RampUpError

unfoldable pub validate_from : ℕ → List RampUpStage → RampUpError
validate_from i [] = accepted
validate_from i (s ∷ ss) =
    let rest = validate_from (i + 1) ss in
    if ltb_ℤ s.after_min (pos 0)
    then negative_after_min i
    else (if ltb_ℤ (pos 0) s.qps then rest else bad_qps i)

-- ValidateRampUp
unfoldable pub validate_ramp_up : List RampUpStage → RampUpError
unfolding validate_from
validate_ramp_up stages =
    if ltb max_ramp_up_stages (length stages) then too_many else validate_from 0 stages

-- The loop of ResolveRampUpQPS.
unfoldable pub climb : ℕ → ℤ → List RampUpStage → ℤ
climb elapsed_min qps [] = qps
climb elapsed_min qps (s ∷ ss) =
    let rest = climb elapsed_min s.qps ss in
    if ltb_ℤ (pos elapsed_min) s.after_min then qps else rest

unfoldable pub cap_qps : ℤ → ℤ → ℤ
cap_qps pace qps = if ltb_ℤ (pos 0) pace && ltb_ℤ pace qps then pace else qps

-- `int(elapsed / time.Minute)`, zero where it is negative; `elapsed` counts nanoseconds.
unfoldable pub elapsed_minutes : ℤ → ℕ
elapsed_minutes elapsed = or_zero elapsed / 60000000000

-- ResolveRampUpQPS
unfoldable pub resolve_ramp_up_qps : List RampUpStage → ℤ → ℤ → ℤ
unfolding climb cap_qps elapsed_minutes
resolve_ramp_up_qps [] elapsed pace = pace
resolve_ramp_up_qps (s ∷ ss) elapsed pace =
    cap_qps pace (climb (elapsed_minutes elapsed) s.qps (s ∷ ss))
