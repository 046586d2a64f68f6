-- ===== src/Domain/Schedule.antt =====
-- internal/domain/schedule.go: sending windows and quiet hours. A time of day is its minute.
pub mod Day
use startlink.Base.{
  ℕ, ◌+◌, ◌*◌, String, Bool, true, false, not, ◌&&◌, ◌||◌, List, [], ◌∷◌, Option, none, some, ◌==◌,
  leb, ltb, if◌then◌else◌, str_eq,
}
use startlink.Domain.Text.{Text, Number, is_empty, trim_space, split_by, atoi, within}

pub record SendWindow : Type 0 where
  pub start : Text
  pub end : Text

-- The checks of the hour and the minute.
unfoldable pub in_range : ℕ → Option Number → Option ℕ
unfolding within
in_range hi none = none
in_range hi (some n) = if within 0 hi n then some n.size else none

unfoldable pub minutes_of : Option ℕ → Option ℕ → Option ℕ
minutes_of (some h) (some m) = some (h * 60 + m)
minutes_of _ _ = none

unfoldable pub parse_parts : List Text → Option ℕ
unfolding in_range minutes_of atoi
parse_parts (h ∷ m ∷ []) = minutes_of (in_range 23 (atoi h)) (in_range 59 (atoi m))
parse_parts _ = none

-- parseHHMM; `none` is an error.
unfoldable pub parse_hhmm : Text → Option ℕ
unfolding parse_parts trim_space split_by
parse_hhmm s = parse_parts (split_by b':' (trim_space s))

-- One window that was parsed: does the loop of InSendWindows return true at it?
unfoldable pub window_holds : Option ℕ → Option ℕ → ℕ → Bool
window_holds (some start) (some end) mins =
    if start == end
    then true
    else (if ltb start end then leb start mins && ltb mins end else leb start mins || ltb mins end)
window_holds _ _ mins = false

unfoldable pub any_window : List SendWindow → ℕ → Bool
unfolding window_holds
any_window [] mins = false
any_window (w ∷ ws) mins =
    let rest = any_window ws mins in
    if window_holds (parse_hhmm w.start) (parse_hhmm w.end) mins then true else rest

-- InSendWindows at the minute `mins` of the day.
unfoldable pub in_send_windows : List SendWindow → ℕ → Bool
unfolding any_window
in_send_windows [] mins = true
in_send_windows (w ∷ ws) mins = any_window (w ∷ ws) mins

unfoldable pub quiet_holds : Option ℕ → Option ℕ → ℕ → Bool
quiet_holds (some s) (some e) mins =
    if s == e
    then false
    else (if ltb s e then leb s mins && ltb mins e else leb s mins || ltb mins e)
quiet_holds _ _ mins = false

-- InQuietHours at the minute `mins` of the day.
unfoldable pub in_quiet_hours : Text → Text → ℕ → Bool
unfolding quiet_holds is_empty
in_quiet_hours start end mins =
    if is_empty start || is_empty end
    then false
    else quiet_holds (parse_hhmm start) (parse_hhmm end) mins
