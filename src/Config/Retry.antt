-- ===== src/Config/Retry.antt =====
-- internal/config/retry.go: how often and after which delay a send is tried again. A Go int and a
-- time.Duration are integers of 64 bits; a duration counts nanoseconds.
pub mod Delays
use startlink.Base.{
  ℕ, ◌+◌, ◌-◌, ◌*◌, ◌%◌, ◌^◌, String, Bool, true, false, List, [], ◌∷◌, Option, none, some, ltb,
  str_eq, ℤ, pos, negsuc, ltb_ℤ, or_zero, if◌then◌else◌,
}
use startlink.Domain.Channel.{ChannelType, channel_valid}
use startlink.Domain.Text.{Text, codes, text_eq, is_empty, trim_space, to_lower}

abbrev pub exponential : Text
exponential = codes "exponential"

abbrev pub linear : Text
linear = codes "linear"

abbrev pub fixed : Text
fixed = codes "fixed"

-- normalizeBackoff
unfoldable pub normalize_backoff : Text → Text
normalize_backoff s =
    let name = to_lower (trim_space s) in
    if text_eq name linear then linear else (if text_eq name fixed then fixed else exponential)

-- ChannelRetryPolicy
pub record ChannelRetryPolicy : Type 0 where
  pub max_retry : ℤ
  pub backoff : Text
  pub base : ℤ
  pub max : ℤ
  pub timeout : ℤ

-- ChannelRetryTable
pub record ChannelRetryTable : Type 0 where
  pub default_policy : ChannelRetryPolicy
  pub by_channel : List (ChannelType × ChannelRetryPolicy)

unfoldable pub policy_in :
    ChannelRetryPolicy → ChannelType → List (ChannelType × ChannelRetryPolicy) → ChannelRetryPolicy
policy_in def ch [] = def
policy_in def ch ((c, p) ∷ rest) = if str_eq c ch then p else policy_in def ch rest

-- For
unfoldable pub for_channel : ChannelRetryTable → ChannelType → ChannelRetryPolicy
for_channel t ch = policy_in t.default_policy ch t.by_channel

-- A product of two positive integers, in 64 bits with a sign.
unfoldable pub to_int64 : ℕ → ℤ
to_int64 n = let r = n % 2 ^ 64 in if ltb r (2 ^ 63) then pos r else negsuc (2 ^ 64 - r - 1)

-- `if v <= 0 { v = def }`
unfoldable pub positive_or : ℕ → ℤ → ℕ
positive_or def v = if ltb_ℤ (pos 0) v then or_zero v else def

abbrev pub millisecond : ℕ
millisecond = 1000000

abbrev pub second : ℕ
second = 1000000000

-- `1<<uint(shift)`, with the shift cut to 20.
unfoldable pub doublings : ℕ → ℕ
doublings attempt = 2 ^ (if ltb 20 attempt then 20 else attempt)

-- The delay before it is cut.
unfoldable pub raw_delay : Text → ℕ → ℕ → ℤ
unfolding text_eq
raw_delay curve base attempt =
    if text_eq curve fixed
    then pos base
    else (if text_eq curve linear
        then to_int64 (base * (attempt + 1))
        else to_int64 (base * doublings attempt))

-- `if d > max { return max }`, and the same where it is negative.
unfoldable pub cut_delay : ℕ → ℤ → ℕ
cut_delay max (pos d) = if ltb max d then max else d
cut_delay max (negsuc d) = max

-- BackoffDelay
unfoldable pub backoff_delay : ChannelRetryPolicy → ℤ → ℕ
unfolding raw_delay cut_delay normalize_backoff positive_or
backoff_delay p attempt = cut_delay (positive_or (5 * second) p.max) (
    raw_delay (normalize_backoff p.backoff) (positive_or (50 * millisecond) p.base)
      (or_zero attempt))

-- ChannelSenderConfig, the fields that the policies read.
pub record ChannelSenderConfig : Type 0 where
  pub max_retry : Option ℤ
  pub retry_backoff : Text
  pub retry_base_ms : ℤ
  pub retry_max_ms : ℤ
  pub timeout_sec : ℤ

-- PusherConfig, the fields that the policies read; no two channels have one name.
pub record PusherConfig : Type 0 where
  pub max_retry : ℤ
  pub retry_backoff : Text
  pub retry_base_ms : ℤ
  pub retry_max_ms : ℤ
  pub timeout_sec : ℤ
  pub channels : List (String × ChannelSenderConfig)

-- msOr and secOr
unfoldable pub ms_or : ℤ → ℕ → ℤ
unfolding positive_or to_int64
ms_or v def = to_int64 (positive_or def v * millisecond)

unfoldable pub sec_or : ℤ → ℕ → ℤ
unfolding positive_or to_int64
sec_or v def = to_int64 (positive_or def v * second)

-- `if def.MaxRetry < 0 { def.MaxRetry = 0 }`
unfoldable pub not_negative : ℤ → ℤ
not_negative v = if ltb_ℤ v (pos 0) then pos 0 else v

unfoldable pub default_of : PusherConfig → ChannelRetryPolicy
default_of p = record {
  max_retry = not_negative p.max_retry;
  backoff = normalize_backoff p.retry_backoff;
  base = ms_or p.retry_base_ms 50;
  max = ms_or p.retry_max_ms 5000;
  timeout = sec_or p.timeout_sec 10;
}

unfoldable pub own_retries : ℤ → Option ℤ → ℤ
unfolding not_negative
own_retries def none = def
own_retries def (some n) = not_negative n

unfoldable pub own_backoff : Text → Text → Text
own_backoff def own = if is_empty (trim_space own) then def else normalize_backoff (trim_space own)

-- `if v > 0 { d = time.Duration(v) * unit }`
unfoldable pub own_duration : ℤ → ℤ → ℕ → ℤ
unfolding to_int64
own_duration def v unit = if ltb_ℤ (pos 0) v then to_int64 (or_zero v * unit) else def

unfoldable pub policy_of : ChannelRetryPolicy → ChannelSenderConfig → ChannelRetryPolicy
policy_of def c = record {
  max_retry = own_retries def.max_retry c.max_retry;
  backoff = own_backoff def.backoff c.retry_backoff;
  base = own_duration def.base c.retry_base_ms millisecond;
  max = own_duration def.max c.retry_max_ms millisecond;
  timeout = own_duration def.timeout c.timeout_sec second;
}

-- The loop over the channels, which passes over the names of no channel.
unfoldable pub policies_from :
    ChannelRetryPolicy
    → List (String × ChannelSenderConfig)
    → List (ChannelType × ChannelRetryPolicy)
policies_from def [] = []
policies_from def ((name, c) ∷ cs) =
    let rest = policies_from def cs in
    if channel_valid name then (name, policy_of def c) ∷ rest else rest

-- BuildRetryTable
unfoldable pub build_retry_table : PusherConfig → ChannelRetryTable
build_retry_table p = record {
  default_policy = default_of p;
  by_channel = policies_from (default_of p) p.channels;
}
