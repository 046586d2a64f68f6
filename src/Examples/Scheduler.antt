-- ===== src/Examples/Scheduler.antt =====
-- internal/scheduler: a campaign, a page of its audience, and a sub task.
use startlink.Base.{
  ◌+◌, ◌≤◌, String, true, false, List, [], ◌∷◌, none, some, length, All, pos, ◌≡◌, refl, ◌⊎◌,
}
use startlink.Domain.Status.{TaskStatus}
use startlink.Domain.Channel.{ChannelMode}
use startlink.Domain.Priority.{Priority}
use startlink.Tasks.Rows.{MainTask, SubTask, SubPayload, document}
use startlink.Aggregator.Steps
use startlink.Scheduler.Campaign.{Campaign, AudiencePage, TargetUser}
use startlink.Scheduler.World.{Services, World}
use startlink.Scheduler.Split.{split}
use startlink.Scheduler.Split.Reported.{split-Good, Refused, Went, Excludes}
use startlink.Scheduler.Messages.Sent.{Reaches, split-Reaches}
use startlink.Scheduler.Worker.{process_sub_task, after_process, publish_paced}
use startlink.Scheduler.Worker.Published.{messages_in}
use startlink.Scheduler.Worker.Fenced.{IsLost, process_sub_task-Idle, publish_paced-IsBounded}

abbrev row : MainTask
row = record {
  id = 7;
  status = TaskStatus.running;
  version = 3;
  total_count = 0;
  success_count = 0;
  fail_count = 0;
  sub_task_total = 0;
  sub_task_done = 0;
  split_owner = "w1";
  split_lease_at = some 10;
  scheduled_at = none;
  started_at = some 10;
  finished_at = none;
  updated_at = 20;
}

abbrev content : Campaign
content = record {
  id = 7;
  biz_scene = "sale";
  topic = "";
  priority = Priority.normal;
  channel = "sms";
  channels = some ("sms" ∷ "email" ∷ []);
  channel_mode = ChannelMode.fallback;
  template_body = "hello";
  default_locale = "";
  template_locales = [];
  strict_vars = false;
  payload = [];
  has_exclude = true;
  expire_at = none;
  pace_qps = pos 10;
  experiment_id = "";
  experiment_salt = "";
  experiment_control_percent = pos 0;
  ab_sample_percent = none;
  ab_sample_salt = "";
  max_fallback = 0;
  channel_routes = [];
  channel_costs = [];
}

abbrev user : String → TargetUser
user id = record { user_id = id; channels = "email" ∷ []; extra = []; locale = ""; timezone = "" }

abbrev page : AudiencePage
page = record { users = user "u1" ∷ user "u2" ∷ []; next_page_token = ""; has_more = false }

abbrev answers : Steps.Services
answers = record {
  clock = λ i. 1000;
  db_fails = λ i. false;
  cache_fails = λ i. false;
  others = λ i rows. rows;
  other_marks = λ i marks. marks;
  sub_done_at = λ i. some 2;
  totals_at = λ i. some (180, 20);
  outcomes_at = λ i. none;
}

abbrev services : Services
services = record {
  base = answers;
  content = λ id. content;
  other_subs = λ i rows. rows;
  new_id = λ i. 70;
  has_excluder = true;
  exclude_at = λ i. some ("u2" ∷ []);
  resolve_at = λ i token. some page;
  has_push_repo = true;
  max_pages = 10000;
  max_users = 5000000;
  has_limiter = false;
  enforces = λ ch. false;
  is_over = λ ch p n. false;
  pauses = false;
  throttled_at = λ i. false;
  throttled_pace = pos 0;
  slow_down = λ p. p;
  cancelled_at = λ i. false;
  publish_at = λ i. none;
}

abbrev start : World
start = record {
  base = record { calls = 0; mains = row ∷ []; marks = []; writes = []; notices = [] };
  subs = [];
  assigned = [];
  created = [];
  published = [];
  resolves = 0;
}

split-Good_example :
    Refused (split services content row "w1" start)
    ⊎ Went services content 0 (split services content row "w1" start)
split-Good_example = split-Good services content row "w1" start refl

split-Reaches_example :
    ((split services content row "w1" start).1.created ≡ [])
    ⊎ ((excluded : List String) × Excludes services content 0 excluded
        × All (Reaches services content excluded) (split services content row "w1" start).1.created)
split-Reaches_example = split-Reaches services content row "w1" start refl

abbrev payload : SubPayload
payload = record {
  user_ids = "u1" ∷ [];
  channels = ("u1", "email" ∷ []) ∷ [];
  extras = [];
  locales = [];
  timezones = [];
}

abbrev sub : SubTask
sub = record {
  id = 70;
  main_task_id = 7;
  shard_index = 0;
  user_ids = document payload;
  total_count = 1;
  success_count = 0;
  fail_count = 0;
  status = TaskStatus.running;
  retry_count = 0;
  worker_id = "w1-0";
  claimed_at = some 30;
  started_at = some 30;
  finished_at = none;
  last_error = "";
}

-- Another worker has the sub task.
abbrev taken : SubTask
taken = record sub { worker_id = "w2-0" }

abbrev after_takeover : Services
after_takeover = record services { other_subs = λ i rows. taken ∷ [] }

taken_over : IsLost after_takeover sub
taken_over i rows = refl

process_sub_task-Idle_example :
    ((after_process after_takeover sub (process_sub_task after_takeover sub start)).base.writes
      ≡ [])
    × ((after_process after_takeover sub (process_sub_task after_takeover sub start)).base.notices
        ≡ [])
process_sub_task-Idle_example = process_sub_task-Idle after_takeover sub start taken_over

publish_paced-IsBounded_example :
    length
      (publish_paced after_takeover sub 0
        (messages_in after_takeover content sub (document payload))
        start).1.published
    ≤ 0 + 50
publish_paced-IsBounded_example =
    publish_paced-IsBounded after_takeover sub
      (messages_in after_takeover content sub (document payload)) start taken_over refl

abbrev all_taken : Services
all_taken = record services { base = record answers { others = λ i rows. row ∷ [] } }
