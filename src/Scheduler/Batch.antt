-- ===== src/Scheduler/Batch.antt =====
-- internal/scheduler/splitter.go: what Split makes of the users of a page.
pub mod Chosen
use startlink.Base.{
  ℕ, String, Bool, true, false, not, ◌&&◌, ◌||◌, List, [], ◌∷◌, ◌++◌, Option, none, some, str_eq,
  any, ℤ, pos, negsuc, ltb_ℤ, if◌then◌else◌,
}
use startlink.Domain.Channel.{ChannelType}
use startlink.Tasks.Rows.{SubPayload}
use startlink.Scheduler.Sampling.{sample_by_percent_with_salt, experiment_group, control}
use startlink.Scheduler.Campaign.{Campaign, TargetUser, channel_list, intersect_channels}

-- ExperimentAssignment
pub record ExperimentAssignment : Type 0 where
  pub main_task_id : ℕ
  pub user_id : String
  pub experiment_id : String
  pub group_name : String

-- What the loop over a page collects.
pub record Batch : Type 0 where
  pub payload : SubPayload
  pub assigns : List ExperimentAssignment

abbrev pub empty_batch : Batch
empty_batch = record {
  payload = record { user_ids = []; channels = []; extras = []; locales = []; timezones = [] };
  assigns = [];
}

-- `abPercent`, -1 where audience_extra has none.
unfoldable pub ab_percent : Campaign → ℤ
ab_percent c = elim c.ab_sample_percent [ none ↦ negsuc 0 | some p ↦ p ]

unfoldable pub ab_salt : Campaign → String
ab_salt c = if str_eq c.experiment_salt "" then c.ab_sample_salt else c.experiment_salt

unfoldable pub has_experiment : Campaign → Bool
has_experiment c = not (str_eq c.experiment_id "") || ltb_ℤ (pos 0) c.experiment_control_percent

unfoldable pub group_of : Campaign → TargetUser → String
unfolding ab_salt
group_of c u = experiment_group u.user_id (ab_salt c) c.experiment_control_percent

-- `if v != "" { m[k] = v }`
unfoldable pub put_text : String → String → List (String × String) → List (String × String)
put_text k v m = if str_eq v "" then m else (k, v) ∷ m

unfoldable pub put_channels :
    TargetUser
    → List ChannelType
    → List (String × List ChannelType)
    → List (String × List ChannelType)
put_channels u chs m = elim u.channels [ [] ↦ m | c ∷ cs ↦ (u.user_id, chs) ∷ m ]

unfoldable pub put_extra :
    String
    → List (String × String)
    → List (String × List (String × String))
    → List (String × List (String × String))
put_extra k [] m = m
put_extra k (e ∷ es) m = (k, e ∷ es) ∷ m

-- The user goes into the batch, over the channels that they share with the campaign.
unfoldable pub add_to :
    TargetUser → List ChannelType → List (String × String) → SubPayload → SubPayload
unfolding put_text put_channels put_extra
add_to u chs extra p = record {
  user_ids = p.user_ids ++ (u.user_id ∷ []);
  channels = put_channels u chs p.channels;
  extras = put_extra u.user_id extra p.extras;
  locales = put_text u.user_id u.locale p.locales;
  timezones = put_text u.user_id u.timezone p.timezones;
}

unfoldable pub place : TargetUser → List (String × String) → List ChannelType → Batch → Batch
unfolding add_to
place u extra [] b = b
place u extra (c ∷ cs) b = record b { payload = add_to u (c ∷ cs) extra b.payload }

unfoldable pub assign : Campaign → TargetUser → Batch → Batch
unfolding group_of
assign c u b = record b {
  assigns =
      b.assigns
      ++ (record {
        main_task_id = c.id;
        user_id = u.user_id;
        experiment_id = c.experiment_id;
        group_name = group_of c u;
      }
          ∷ []);
}

unfoldable pub with_group : Campaign → TargetUser → List (String × String)
unfolding group_of
with_group c u = ("experiment_group", group_of c u) ∷ ("experiment_id", c.experiment_id) ∷ u.extra

-- Is the user left out by the sampling of a campaign with no experiment?
unfoldable pub is_sampled_out : Campaign → TargetUser → Bool
unfolding ab_percent ab_salt
is_sampled_out c u =
    not (ltb_ℤ (ab_percent c) (pos 0))
    && not (sample_by_percent_with_salt u.user_id (ab_salt c) (ab_percent c))

-- One round of the loop over the users.
unfoldable pub add_user : Campaign → List String → TargetUser → Batch → Batch
add_user c excluded u b =
    let chs = intersect_channels (channel_list c) u.channels in
    if str_eq u.user_id "" || any (str_eq u.user_id) excluded
    then b
    else (if has_experiment c
        then (if str_eq (group_of c u) control
            then assign c u b
            else place u (with_group c u) chs (assign c u b))
        else (if is_sampled_out c u then b else place u u.extra chs b))

-- The loop over the users of a page.
unfoldable pub add_users : Campaign → List String → List TargetUser → Batch → Batch
add_users c excluded [] b = b
add_users c excluded (u ∷ us) b = add_users c excluded us (add_user c excluded u b)
