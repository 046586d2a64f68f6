-- ===== src/Config/Retry/Delays.antt =====
-- internal/config/retry.go: the bounds of the delays, and what holds of every policy of the table.
use startlink.Base.{
  ℕ, ◌+◌, ◌*◌, ◌^◌, ◌≤◌, ◌<◌, String, true, false, List, [], ◌∷◌, Option, none, some, ltb, str_eq,
  str_eq_iff, ℤ, pos, negsuc, ltb_ℤ, or_zero, if◌then◌else◌, ◌≡◌, refl, ap, arith, ◌⊎◌, inl, inr,
  Bool-cases,
}
use native.Mathlib.Nat.{pow-le-pow_right}
use startlink.Domain.Channel.{ChannelType, channel_valid}
use startlink.Domain.Text.{Text, text_eq, trim_space, trim_left, is_space, to_lower, is_empty}
use startlink.Config.Retry.{
  ChannelRetryPolicy, ChannelSenderConfig, PusherConfig, exponential, linear, fixed,
  normalize_backoff, for_channel, policy_in, to_int64, positive_or, millisecond, second, doublings,
  raw_delay, cut_delay, backoff_delay, policy_of, default_of, policies_from, build_retry_table,
  own_backoff, own_retries, not_negative,
}

-- How many times the base the curve asks for.
abbrev pub factor : Text → ℕ → ℕ
factor curve attempt =
    if text_eq curve fixed
    then 1
    else (if text_eq curve linear then attempt + 1 else doublings attempt)

abbrev pub min : ℕ → ℕ → ℕ
min a b = if ltb a b then a else b

abbrev pub base_of : ChannelRetryPolicy → ℕ
base_of p = positive_or (50 * millisecond) p.base

abbrev pub max_of : ChannelRetryPolicy → ℕ
max_of p = positive_or (5 * second) p.max

cut_delay-le : (max : ℕ) (d : ℤ) → cut_delay max d ≤ max
unfolding cut_delay
cut_delay-le max (pos d) = ground arith
cut_delay-le max (negsuc d) = omega arith

to_int64-lt : (n : ℕ) → n < 2 ^ 63 → to_int64 n ≡ pos n
unfolding to_int64
to_int64-lt n h = ground arith

cut_delay_pos : (max d : ℕ) → cut_delay max (pos d) ≡ min max d
unfolding cut_delay
cut_delay_pos max d = refl

le-lt : {a b c : ℕ} → a ≤ b → b < c → a < c
le-lt h k = omega arith

raw_delay-small :
    (curve : Text) (base attempt : ℕ)
    → base * factor curve attempt < 2 ^ 63
    → raw_delay curve base attempt ≡ pos (base * factor curve attempt)
unfolding raw_delay
raw_delay-small curve base attempt h = elim (Bool-cases (text_eq curve fixed)) [
  | inl is_fixed ↦ rw is_fixed (ap pos (omega arith))
  | inr not_fixed ↦ elim (Bool-cases (text_eq curve linear)) [
    | inl is_linear ↦ rw (not_fixed, is_linear) (to_int64-lt _ (rw (not_fixed, is_linear) at h))
    | inr not_linear ↦ rw (not_fixed, not_linear) (to_int64-lt _ (rw (not_fixed, not_linear) at h))
  ]
]

backoff_delay-small :
    (p : ChannelRetryPolicy) (attempt : ℤ)
    → base_of p * factor (normalize_backoff p.backoff) (or_zero attempt) < 2 ^ 63
    → backoff_delay p attempt
      ≡ min (max_of p) (base_of p * factor (normalize_backoff p.backoff) (or_zero attempt))
unfolding backoff_delay
backoff_delay-small p attempt h =
    rw (raw_delay-small (normalize_backoff p.backoff) (base_of p) (or_zero attempt) h) (
      cut_delay_pos (max_of p) (base_of p * factor (normalize_backoff p.backoff) (or_zero attempt)))

doublings_mono : (m n : ℕ) → m ≤ n → doublings m ≤ doublings n
unfolding doublings
doublings_mono m n h = pow-le-pow_right (omega arith) (ground arith)

factor_mono : (curve : Text) (m n : ℕ) → m ≤ n → factor curve m ≤ factor curve n
factor_mono curve m n h = elim (Bool-cases (text_eq curve fixed)) [
  | inl is_fixed ↦ rw is_fixed (omega arith)
  | inr not_fixed ↦ elim (Bool-cases (text_eq curve linear)) [
    | inl is_linear ↦ rw (not_fixed, is_linear) (omega arith)
    | inr not_linear ↦ rw (not_fixed, not_linear) (doublings_mono m n h)
  ]
]

product_mono : (b m n : ℕ) → m ≤ n → b * m ≤ b * n
product_mono b m n h = grind arith

min_mono : (a m n : ℕ) → m ≤ n → min a m ≤ min a n
min_mono a m n h = ground arith

-- The delay never exceeds the policy's maximum, also where the product leaves 64 bits; where it
-- does not, the delay is the smaller of the maximum and the base times what the curve asks for.
pub backoff_delay_bounds :
    (p : ChannelRetryPolicy) (attempt : ℤ)
    → (backoff_delay p attempt ≤ max_of p)
      × ((2 ^ 63 ≤ base_of p * factor (normalize_backoff p.backoff) (or_zero attempt))
          ⊎ (backoff_delay p attempt
              ≡ min
                  (max_of p)
                  (base_of p * factor (normalize_backoff p.backoff) (or_zero attempt))))
backoff_delay_bounds p attempt = (
  unfold backoff_delay in cut_delay-le (max_of p) _,
  elim (Bool-cases
      (ltb (base_of p * factor (normalize_backoff p.backoff) (or_zero attempt)) (2 ^ 63))) [
        | inl small ↦ inr (backoff_delay-small p attempt (ground arith))
        | inr large ↦ inl (ground arith)
      ],
)

-- A later attempt waits no less, as long as its product stays within 64 bits.
pub backoff_delay_mono :
    (p : ChannelRetryPolicy) (early late : ℕ)
    → early ≤ late
    → base_of p * factor (normalize_backoff p.backoff) late < 2 ^ 63
    → backoff_delay p (pos early) ≤ backoff_delay p (pos late)
backoff_delay_mono p early late h k =
    let curve = normalize_backoff p.backoff in
    let grows =
      product_mono (base_of p) (factor curve early) (factor curve late)
        (factor_mono curve early late h) in
    rw (backoff_delay-small p (pos early) (le-lt grows k), backoff_delay-small p (pos late) k)
      (min_mono (max_of p) _ _ grows)

-- A policy that the sending loop can use as it is.
pub record IsUsable (p : ChannelRetryPolicy) : Type 0 where
  pub retries : ltb_ℤ p.max_retry (pos 0) ≡ false
  pub named : normalize_backoff p.backoff ≡ p.backoff

normalize_backoff-names :
    (s : Text)
    → (normalize_backoff s ≡ linear)
      ⊎ (normalize_backoff s ≡ fixed)
      ⊎ (normalize_backoff s ≡ exponential)
unfolding normalize_backoff
normalize_backoff-names s = elim (Bool-cases (text_eq (to_lower (trim_space s)) linear)) [
  | inl is_linear ↦ inl (rw is_linear)
  | inr not_linear ↦ elim (Bool-cases (text_eq (to_lower (trim_space s)) fixed)) [
    | inl is_fixed ↦ inr (inl (rw (not_linear, is_fixed)))
    | inr not_fixed ↦ inr (inr (rw (not_linear, not_fixed)))
  ]
]

normalize_backoff_idem : (s : Text) → normalize_backoff (normalize_backoff s) ≡ normalize_backoff s
normalize_backoff_idem s = elim (normalize_backoff-names s) [
  | inl e ↦ rw e (unfold normalize_backoff text_eq trim_space trim_left is_space to_lower in refl)
  | inr (inl e) ↦
      rw e (unfold normalize_backoff text_eq trim_space trim_left is_space to_lower in refl)
  | inr (inr e) ↦
      rw e (unfold normalize_backoff text_eq trim_space trim_left is_space to_lower in refl)
]

not_negative_lem : (v : ℤ) → ltb_ℤ (not_negative v) (pos 0) ≡ false
unfolding not_negative
not_negative_lem v = ground arith

default_of-IsUsable : (p : PusherConfig) → IsUsable (default_of p)
unfolding default_of
default_of-IsUsable p = record {
  retries = not_negative_lem p.max_retry;
  named = normalize_backoff_idem p.retry_backoff;
}

own_retries_lem :
    (def : ℤ) (own : Option ℤ)
    → ltb_ℤ def (pos 0) ≡ false
    → ltb_ℤ (own_retries def own) (pos 0) ≡ false
unfolding own_retries
own_retries_lem def none h = h
own_retries_lem def (some n) h = not_negative_lem n

own_backoff_lem :
    (def own : Text)
    → normalize_backoff def ≡ def
    → normalize_backoff (own_backoff def own) ≡ own_backoff def own
unfolding own_backoff
own_backoff_lem def own h = elim (Bool-cases (is_empty (trim_space own))) [
  | inl e ↦ rw e h
  | inr e ↦ rw e (normalize_backoff_idem (trim_space own))
]

policy_of-IsUsable :
    (def : ChannelRetryPolicy) (c : ChannelSenderConfig) → IsUsable def → IsUsable (policy_of def c)
unfolding policy_of
policy_of-IsUsable def c h = record {
  retries = own_retries_lem def.max_retry c.max_retry h.retries;
  named = own_backoff_lem def.backoff c.retry_backoff h.named;
}

policy_in-IsUsable :
    (def : ChannelRetryPolicy) (ch : ChannelType) (cs : List (String × ChannelSenderConfig))
    → IsUsable def
    → IsUsable (policy_in def ch (policies_from def cs))
unfolding policies_from policy_in
policy_in-IsUsable def ch [] h = h
policy_in-IsUsable def ch ((name, c) ∷ cs) h = elim (Bool-cases (channel_valid name)) [
  | inr e ↦ rw e (policy_in-IsUsable def ch cs h)
  | inl e ↦ elim (Bool-cases (str_eq name ch)) [
    | inl same ↦ rw (e, same) (policy_of-IsUsable def c h)
    | inr other ↦ rw (e, other) (policy_in-IsUsable def ch cs h)
  ]
]

policy_in-unknown :
    (def : ChannelRetryPolicy) (ch : ChannelType) (cs : List (String × ChannelSenderConfig))
    → channel_valid ch ≡ false
    → policy_in def ch (policies_from def cs) ≡ def
unfolding policies_from policy_in
policy_in-unknown def ch [] h = refl
policy_in-unknown def ch ((name, c) ∷ cs) h = elim (Bool-cases (channel_valid name)) [
  | inr e ↦ rw e (policy_in-unknown def ch cs h)
  | inl e ↦ elim (Bool-cases (str_eq name ch)) [
    | inl same ↦ let names : name ≡ ch = (str_eq_iff name ch).0 same in cc
    | inr other ↦ rw (e, other) (policy_in-unknown def ch cs h)
  ]
]

-- Whatever was configured, the policy of every channel has a number of retries that is not
-- negative and the normal form of one of the three curves; a channel that is none has the default
-- policy.
pub build_retry_table-IsUsable :
    (p : PusherConfig) (ch : ChannelType)
    → IsUsable (for_channel (build_retry_table p) ch)
      × ((channel_valid ch ≡ true) ⊎ (for_channel (build_retry_table p) ch ≡ default_of p))
unfolding build_retry_table for_channel
build_retry_table-IsUsable p ch = (
  policy_in-IsUsable (default_of p) ch p.channels (default_of-IsUsable p),
  elim (Bool-cases (channel_valid ch)) [
    | inl e ↦ inl e
    | inr e ↦ inr (policy_in-unknown (default_of p) ch p.channels e)
  ],
)
