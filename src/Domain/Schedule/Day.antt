-- ===== src/Domain/Schedule/Day.antt =====
-- internal/domain/schedule.go: the windows as arcs of the day's circle of 1440 minutes.
use startlink.Base.{
  ℕ, ◌+◌, ◌-◌, ◌%◌, ◌≤◌, ◌<◌, false, List, [], ◌∷◌, Option, none, some, ltb, ◌≡◌, ◌≢◌, refl, arith,
}
use startlink.Domain.Text.{Text, Number, within, atoi, split_by, trim_space, is_empty, digits}
use startlink.Domain.Schedule.{
  in_range, minutes_of, parse_parts, parse_hhmm, quiet_holds, in_quiet_hours,
}

-- How far `t` lies after `s` on the circle.
abbrev pub after : ℕ → ℕ → ℕ
after s t = (t + 1440 - s) % 1440

in_range_bound : (hi : ℕ) (o : Option Number) (n : ℕ) → in_range hi o ≡ some n → n ≤ hi
unfolding in_range within
in_range_bound hi none n h = cc
in_range_bound hi (some m) n h = ground arith

minutes_of_bound :
    (x y : Option ℕ) (t : ℕ)
    → ((h : ℕ) → x ≡ some h → h ≤ 23)
    → ((m : ℕ) → y ≡ some m → m ≤ 59)
    → minutes_of x y ≡ some t
    → t < 1440
unfolding minutes_of
minutes_of_bound none y t p q h = cc
minutes_of_bound (some a) none t p q h = cc
minutes_of_bound (some a) (some b) t p q h = ground (arith, p a refl, q b refl)

parse_parts_bound : (ps : List Text) (t : ℕ) → parse_parts ps ≡ some t → t < 1440
unfolding parse_parts
parse_parts_bound [] t h = cc
parse_parts_bound (a ∷ []) t h = cc
parse_parts_bound (a ∷ b ∷ []) t h =
    minutes_of_bound (in_range 23 (atoi a)) (in_range 59 (atoi b)) t (in_range_bound 23 (atoi a))
      (in_range_bound 59 (atoi b)) h
parse_parts_bound (a ∷ b ∷ c ∷ ps) t h = cc

-- A time that parses is a minute of the day.
pub parse_hhmm_bound : (s : Text) (t : ℕ) → parse_hhmm s ≡ some t → t < 1440
unfolding parse_hhmm
parse_hhmm_bound s t h = parse_parts_bound (split_by 58 (trim_space s)) t h

not_empty : (x : Text) (t : ℕ) → parse_hhmm x ≡ some t → is_empty x ≡ false
unfolding parse_hhmm atoi split_by trim_space digits is_empty
not_empty [] t p = cc
not_empty (c ∷ x) t p = refl

arc :
    (s e t : ℕ)
    → s < 1440
    → e < 1440
    → t < 1440
    → s ≢ e
    → quiet_holds (some s) (some e) t ≡ ltb (after s t) (after s e)
unfolding quiet_holds
arc s e t hs he ht n = ground arith

-- Quiet hours whose ends parse and differ hold, at a minute of the day, exactly on the arc of the
-- clock from the start to the end, over midnight or not: where the minute comes sooner after the
-- start than the end does.
pub in_quiet_hours-arc :
    (start end : Text) (s e t : ℕ)
    → parse_hhmm start ≡ some s
    → parse_hhmm end ≡ some e
    → t < 1440
    → s ≢ e
    → in_quiet_hours start end t ≡ ltb (after s t) (after s e)
unfolding in_quiet_hours
in_quiet_hours-arc start end s e t ps pe ht n =
    let hs = parse_hhmm_bound start s ps in
    let he = parse_hhmm_bound end e pe in
    let start_set = not_empty start s ps in
    let end_set = not_empty end e pe in rw (start_set, end_set, ps, pe) (arc s e t hs he ht n)
