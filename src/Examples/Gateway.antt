-- ===== src/Examples/Gateway.antt =====
-- internal/push/gateway.go: one message to one user, with a sender that fails once.
use startlink.Base.{ℕ, zero, suc, true, false, List, [], ◌∷◌, Option, none, some, ◌≡◌, refl, ◌⊎◌}
use mathlib.Core.List.Perm
use startlink.Domain.Status.{TaskStatus, PushStatus, delivered_ok}
use startlink.Records.Rows.{PushRecord}
use startlink.Domain.Channel.{ChannelMode}
use startlink.Domain.Priority.{Priority}
use startlink.Domain.Text.{codes}
use startlink.Gateway.Services.{
  SendError, PushMessage, resolve_send_channels, found, SendResult, FreqConfig, Services, World,
  Outcome, failed_with, delivered,
}
use startlink.Gateway.Snapshot.{load_main_snap}
use startlink.Gateway.Attempts.{do_send}
use startlink.Gateway.Sending.{send_one}
use startlink.Gateway.Modes.{send_each, send_parallel}
use startlink.Gateway.Handler.{handle}
use startlink.Gateway.Attempting.{AtMost, attempt, do_send-AtMost}
use startlink.Gateway.Licence.{IsLicensedCall, send_one-IsLicensed}
use startlink.Gateway.Gates.{MaySend, handle-MaySend}
use startlink.Gateway.Outcomes.{verdict, parallel_spec}
use startlink.Records.Delivered.{IsDelivered}
use startlink.Records.Exclusion.{key_of}
use startlink.Gateway.Again.{send_one-IsDelivered}
use startlink.Gateway.Recorded.{do_send-IsDelivered}
use startlink.Gateway.Sending.{new_record}
use startlink.Gateway.Budget.{budget, IsWithin, handle-IsWithin}
use startlink.Gateway.Outcomes.Arrival.{send_parallel-arrival}

abbrev freq : FreqConfig
freq = record {
  enabled = true;
  user_limit = 5;
  user_window_sec = 3600;
  user_channel_limit = 3;
  user_channel_window_sec = 3600;
  scene_limit = 0;
  scene_window_sec = 0;
  marketing_limit = 2;
  marketing_window_sec = 86400;
  quiet_enabled = true;
  quiet_scenes = "promo" ∷ [];
  quiet_start = codes "22:00";
  quiet_end = codes "08:00";
}

-- The sender is overloaded until the tenth call.
abbrev answer : ℕ → Option SendResult × Option SendError
answer zero = (
  some (record {
    success = false;
    provider = "";
    provider_id = "";
    error_msg = "busy";
    retryable = true;
  }),
  none,
)
answer (suc zero) = answer zero
answer (suc (suc zero)) = answer zero
answer (suc (suc (suc n))) = (
  some (record {
    success = true;
    provider = "smtp";
    provider_id = "m-1";
    error_msg = "";
    retryable = false;
  }),
  none,
)

abbrev services : Services
services = record {
  freq = freq;
  prefs_open = false;
  has_unsub = true;
  has_prefs = false;
  has_cache = true;
  has_limiter = true;
  clock = λ i. 1000;
  minute_of_day = λ zone t. 600;
  main_at = λ i. found TaskStatus.running [];
  unsubscribed_at = λ i. some false;
  preference_at = λ i. some none;
  allow_all_at = λ i limits. some true;
  wait_at = λ i. none;
  bucket_at = λ i. true;
  has_delivered_at = λ i. some false;
  db_fails = λ i. false;
  others = λ i rows. rows;
  new_id = λ i. 9;
  registered = λ ch. true;
  send_at = answer;
  max_retry = λ ch. 2;
  interrupted_at = λ i. none;
  content_of = λ m ch. record { body = m.body; broken = false };
  condition_holds = λ m c. true;
}

abbrev message : PushMessage
message = record {
  main_task_id = 7;
  sub_task_id = 70;
  user_id = "u1";
  body = "hello";
  channel = "email";
  channels = [];
  channel_mode = ChannelMode.single;
  biz_scene = "promo";
  topic = "";
  priority = Priority.normal;
  timezone = "Asia/Shanghai";
  expire_at = none;
  max_fallback = 0;
  routes = [];
  costs = [];
  strict_vars = true;
  experiment_group = "";
}

abbrev idle : World
idle = record { calls = 0; records = []; cache = []; sent = [] }

do_send-AtMost_example :
    AtMost (attempt 9 "email") 3 [] (do_send services message "email" 9 idle).1.sent
do_send-AtMost_example = do_send-AtMost services message "email" 9 idle

-- The record is claimed.
abbrev claimed_record : PushRecord
claimed_record = record (new_record message "email" "hello") {
  id = 9;
  status = PushStatus.sending;
  updated_at = 900;
}

abbrev busy : World
busy = record idle { records = claimed_record ∷ [] }

-- The record of a delivery a while ago.
abbrev over : World
over = record idle { records = record claimed_record { status = PushStatus.sent } ∷ [] }

do_send-IsDelivered_example :
    IsDelivered (key_of claimed_record) (do_send services message "email" 9 busy).1.records
do_send-IsDelivered_example =
    do_send-IsDelivered services message "email" 9 claimed_record busy (λ n rows. refl)
      (record {
        holder = claimed_record;
        by_key = unfold new_record in refl;
        by_number = unfold new_record in refl;
        in_progress = refl;
      })
      (unfold do_send new_record in refl)

send_one-IsDelivered_example : (send_one services message "email" over).1.sent ≡ []
send_one-IsDelivered_example =
    send_one-IsDelivered services message "email" over (λ n rows h. h)
      (record {
        holder = record claimed_record { status = PushStatus.sent };
        found = unfold new_record in refl;
        done = unfold delivered_ok in refl;
      })

send_one-IsLicensed_example :
    IsLicensedCall services message "email" idle (send_one services message "email" idle).1
send_one-IsLicensed_example = send_one-IsLicensed services message "email" idle

handle-MaySend_example :
    ((handle services (λ os. os) message idle).1.sent ≡ [])
    ⊎ MaySend services message
        (load_main_snap services false 7 idle).0
        (load_main_snap services false 7 idle).1
handle-MaySend_example = handle-MaySend services (λ os. os) message idle

abbrev mixed : List Outcome
mixed = failed_with SendError.suppressed ∷ failed_with SendError.throttled ∷ delivered ∷ []

send_parallel-arrival_example :
    verdict (send_parallel services (λ os. os) message ("email" ∷ "sms" ∷ []) idle).0
    ≡ parallel_spec (send_each services message ("email" ∷ "sms" ∷ []) idle).0
send_parallel-arrival_example =
    send_parallel-arrival services (λ os. os) message ("email" ∷ "sms" ∷ []) idle (Perm.refl _)

handle-IsWithin_example :
    IsWithin
      (budget services (resolve_send_channels (λ c. true) message))
      idle
      (handle services (λ os. os) message idle).1
handle-IsWithin_example = handle-IsWithin services (λ os. os) message idle
