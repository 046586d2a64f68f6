-- ===== src/Examples/Config.antt =====
-- internal/config: a retry table.
use startlink.Base.{true, [], ◌∷◌, some, pos, negsuc, ◌≡◌, ◌⊎◌}
use startlink.Domain.Channel.{channel_valid}
use startlink.Domain.Text.{codes}
use startlink.Config.Retry.{
  ChannelRetryPolicy, PusherConfig, exponential, build_retry_table, for_channel, default_of,
}
use startlink.Config.Retry.Delays.{IsUsable, build_retry_table-IsUsable}

abbrev policy : ChannelRetryPolicy
policy = record {
  max_retry = pos 3;
  backoff = exponential;
  base = pos 50000000;
  max = pos 5000000000;
  timeout = pos 10000000000;
}

abbrev pusher : PusherConfig
pusher = record {
  max_retry = negsuc 0;
  retry_backoff = codes " Linear ";
  retry_base_ms = pos 50;
  retry_max_ms = pos 5000;
  timeout_sec = pos 10;
  channels =
      (
        "sms",
        record {
          max_retry = some (pos 1);
          retry_backoff = codes "fixed";
          retry_base_ms = pos 0;
          retry_max_ms = pos 0;
          timeout_sec = pos 0;
        },
      )
      ∷ [];
}

build_retry_table-IsUsable_example :
    IsUsable (for_channel (build_retry_table pusher) "sms")
    × ((channel_valid "sms" ≡ true)
        ⊎ (for_channel (build_retry_table pusher) "sms" ≡ default_of pusher))
build_retry_table-IsUsable_example = build_retry_table-IsUsable pusher "sms"
