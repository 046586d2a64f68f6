-- ===== src/Examples/Domain.antt =====
-- internal/domain: statuses, quiet hours, channel costs and a user's preference.
use startlink.Base.{false, [], ◌∷◌, ◌≡◌, refl, arith, ltb}
use startlink.Domain.Text.{Text, codes}
use startlink.Domain.Schedule.{parse_hhmm, in_quiet_hours}
use startlink.Domain.Schedule.Day.{after, in_quiet_hours-arc}
use startlink.Domain.Preference.{UserPreference}

abbrev evening : Text
evening = codes "22:00"

abbrev morning : Text
morning = codes "08:00"

in_quiet_hours-arc_example :
    in_quiet_hours evening morning 100 ≡ ltb (after 1320 100) (after 1320 480)
unfolding parse_hhmm
in_quiet_hours-arc_example =
    in_quiet_hours-arc evening morning 1320 480 100 refl refl (omega arith) (λ e. omega arith)

abbrev reader : UserPreference
reader = record {
  user_id = "u1";
  timezone = "Asia/Shanghai";
  quiet_start = "22:00";
  quiet_end = "08:00";
  opt_out_channels = "sms" ∷ [];
  opt_out_topics = "sale" ∷ [];
  marketing_opt_out = false;
}
