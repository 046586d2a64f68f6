-- ===== src/Scheduler/Sampling.antt =====
-- internal/adapter/audience/registry.go: who of an audience is sampled, and who is in the control
-- group of an experiment. FNV-1a over the bytes of the texts, in UTF-8.
use Prim.Native.Nat.{bit_xor}
use startlink.Base.{
  ℕ, ◌+◌, ◌*◌, ◌/◌, ◌%◌, String, Bool, true, false, List, [], ◌∷◌, ◌++◌, ltb, str_eq, ℤ, pos,
  negsuc, ltb_ℤ, if◌then◌else◌, ◌≡◌, refl, arith, ◌⊎◌,
}
use startlink.Domain.Text.{Text, codes}

-- The bytes of a code point, and of a text.
unfoldable pub utf8 : ℕ → List ℕ
utf8 c =
    if ltb c 0x80
    then c ∷ []
    else (if ltb c 0x800
        then (0xc0 + c / 64) ∷ (0x80 + c % 64) ∷ []
        else (if ltb c 0x10000
            then (0xe0 + c / 4096) ∷ (0x80 + c / 64 % 64) ∷ (0x80 + c % 64) ∷ []
            else (0xf0 + c / 262144)
              ∷ (0x80 + c / 4096 % 64)
              ∷ (0x80 + c / 64 % 64)
              ∷ (0x80 + c % 64)
              ∷ []))

unfoldable pub bytes : Text → List ℕ
unfolding utf8
bytes [] = []
bytes (c ∷ s) = utf8 c ++ bytes s

-- hash/fnv: the sum of New32a after the bytes are written.
unfoldable pub fnv32a : ℕ → List ℕ → ℕ
fnv32a h [] = h
fnv32a h (b ∷ bs) = fnv32a (bit_xor h b * 16777619 % 4294967296) bs

-- `h.Write(salt); h.Write(":")` where there is a salt.
unfoldable pub salted : String → List ℕ
unfolding bytes
salted salt = if str_eq salt "" then [] else bytes (codes salt) ++ (b':' ∷ [])

-- `h.Sum32() % 100`
unfoldable pub bucket : String → String → ℕ
unfolding fnv32a salted bytes
bucket user_id salt = fnv32a 2166136261 (salted salt ++ bytes (codes user_id)) % 100

-- SampleByPercentWithSalt
unfoldable pub sample_by_percent_with_salt : String → String → ℤ → Bool
sample_by_percent_with_salt user_id salt percent =
    if ltb_ℤ percent (pos 100)
    then (if ltb_ℤ (pos 0) percent then ltb_ℤ (pos (bucket user_id salt)) percent else false)
    else true

abbrev pub control : String
control = "control"

abbrev pub treatment : String
treatment = "treatment"

-- ExperimentGroup
unfoldable pub experiment_group : String → String → ℤ → String
experiment_group user_id salt control_percent =
    if ltb_ℤ (pos 0) control_percent
    then (if ltb_ℤ control_percent (pos 100)
        then (if ltb_ℤ (pos (bucket user_id salt)) control_percent then control else treatment)
        else control)
    else treatment

-- A user is in the control group exactly when sampling by the control percentage takes them, and
-- who is in it stays in it when the percentage grows; at 0 it is empty and at 100 it has everyone.
pub experiment_group-sample :
    (u salt : String) (p q : ℤ)
    → (experiment_group u salt p
        ≡ (if sample_by_percent_with_salt u salt p then control else treatment))
      × ((ltb_ℤ q p ≡ true)
          ⊎ (sample_by_percent_with_salt u salt p ≡ false)
          ⊎ (sample_by_percent_with_salt u salt q ≡ true))
      × (sample_by_percent_with_salt u salt (pos 0) ≡ false)
      × (sample_by_percent_with_salt u salt (pos 100) ≡ true)
unfolding sample_by_percent_with_salt experiment_group
experiment_group-sample u salt p q = (ground arith, grows p q, refl, refl)
  where
    grows :
        (p q : ℤ)
        → (ltb_ℤ q p ≡ true)
          ⊎ (sample_by_percent_with_salt u salt p ≡ false)
          ⊎ (sample_by_percent_with_salt u salt q ≡ true)
    grows (pos a) (pos b) = ground arith
    grows (pos a) (negsuc b) = ground arith
    grows (negsuc a) q = ground arith
