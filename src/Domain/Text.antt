-- ===== src/Domain/Text.antt =====
-- The functions of Go's packages strings and strconv that internal/domain uses, on code points.
-- to_lower maps the letters of ASCII; other letters stay as they are.
use Prim.Native.Char.{code}
use startlink.Base.{
  ℕ, ◌+◌, ◌-◌, ◌*◌, String, Bool, true, false, not, ◌&&◌, ◌||◌, List, [], ◌∷◌, Option, none, some,
  ◌==◌, leb, if◌then◌else◌, ◌≡◌, refl, arith,
}
use mathlib.Core.List.{reverse}

abbrev pub Text : Type 0
Text = List ℕ

abbrev pub codes : String → Text
codes String.[] = []
codes (String.◌∷◌ c s) = code c ∷ codes s

unfoldable pub text_eq : Text → Text → Bool
text_eq [] [] = true
text_eq (a ∷ s) (b ∷ t) = a == b && text_eq s t
text_eq _ _ = false

pub text_eq_refl : (s : Text) → text_eq s s ≡ true
unfolding text_eq
text_eq_refl [] = refl
text_eq_refl (a ∷ s) = ground (arith, text_eq_refl s)

pub text_eq→eq : (s t : Text) → text_eq s t ≡ true → s ≡ t
unfolding text_eq
text_eq→eq [] [] h = refl
text_eq→eq [] (b ∷ t) h = cc
text_eq→eq (a ∷ s) [] h = cc
text_eq→eq (a ∷ s) (b ∷ t) h = ground (arith, text_eq→eq s t)

-- `s == ""`
unfoldable pub is_empty : Text → Bool
is_empty [] = true
is_empty (c ∷ s) = false

-- unicode.IsSpace
unfoldable pub is_space : ℕ → Bool
is_space c =
    leb 9 c && leb c 13
    || c == 32
    || c == 0x85
    || c == 0xa0
    || c == 0x1680
    || leb 0x2000 c && leb c 0x200a
    || c == 0x2028
    || c == 0x2029
    || c == 0x202f
    || c == 0x205f
    || c == 0x3000

unfoldable pub trim_left : Text → Text
unfolding is_space
trim_left [] = []
trim_left (c ∷ s) = let rest = trim_left s in if is_space c then rest else c ∷ s

-- strings.TrimSpace
unfoldable pub trim_space : Text → Text
unfolding trim_left
trim_space s = reverse (trim_left (reverse (trim_left s)))

unfoldable pub to_lower : Text → Text
to_lower [] = []
to_lower (c ∷ s) = (if leb b'A' c && leb c b'Z' then c + 32 else c) ∷ to_lower s

-- The first piece and the pieces after it.
unfoldable pub put : ℕ → List Text → List Text
put c [] = (c ∷ []) ∷ []
put c (p ∷ ps) = (c ∷ p) ∷ ps

-- strings.Split by a separator of one character.
unfoldable pub split_by : ℕ → Text → List Text
unfolding put
split_by sep [] = [] ∷ []
split_by sep (c ∷ s) = let rest = split_by sep s in if c == sep then [] ∷ rest else put c rest

-- A whole number as strconv.Atoi reads it. Numbers that an int64 does not hold are read too: the
-- callers refuse them by their range.
pub record Number : Type 0 where
  pub negative : Bool
  pub size : ℕ

unfoldable pub digits_from : ℕ → Text → Option ℕ
digits_from acc [] = some acc
digits_from acc (c ∷ s) =
    let rest = digits_from (acc * 10 + (c - 48)) s in
    if leb b'0' c && leb c b'9' then rest else none

unfoldable pub digits : Bool → Text → Option Number
unfolding digits_from
digits negative [] = none
digits negative (c ∷ s) = elim (digits_from 0 (c ∷ s)) [
  | none ↦ none
  | some n ↦ some (record { negative = negative; size = n })
]

unfoldable pub atoi : Text → Option Number
unfolding digits
atoi [] = none
atoi (c ∷ s) =
    if c == b'-'
    then digits true s
    else (if c == b'+' then digits false s else digits false (c ∷ s))

-- `lo <= n && n <= hi`
unfoldable pub within : ℕ → ℕ → Number → Bool
within lo hi n = if n.negative && not (n.size == 0) then false else leb lo n.size && leb n.size hi
