-- ===== src/Campaigns/Retrying/Shards.antt =====
-- internal/app/campaign/service.go: how buildRetryShards cuts the users, and numbers the shards.
use startlink.Base.{
  All-weaken, ℕ, zero, suc, ◌≤◌, ◌<◌, String, List, [], ◌∷◌, ◌++◌, length, take, drop, All, ◌≡◌,
  refl, ap, ◌∙◌, arith,
}
use startlink.Domain.Status.{TaskStatus}
use startlink.Tasks.Rows.{SubTask}
use startlink.Campaigns.Retrying.{
  parse_sub_user_ids, users_in, next_shard, retry_shard, retry_shards,
}

module _ {ℓ} {A : Type ℓ} where
  take-drop : (n : ℕ) (xs : List A) → take n xs ++ drop n xs ≡ xs
  take-drop zero xs = refl
  take-drop (suc n) [] = refl
  take-drop (suc n) (x ∷ xs) = ap (λ ys. x ∷ ys) (take-drop n xs)

  length-drop : (n : ℕ) (xs : List A) → length (drop n xs) ≤ length xs
  length-drop zero xs = omega arith
  length-drop (suc n) [] = omega arith
  length-drop (suc n) (x ∷ xs) = omega (arith, length-drop n xs)

  length-take : (n : ℕ) (xs : List A) → length (take n xs) ≤ n
  length-take zero xs = omega arith
  length-take (suc n) [] = omega arith
  length-take (suc n) (x ∷ xs) = omega (arith, length-take n xs)

-- A new shard of the campaign: it is numbered from `shard` on, and waits for a worker; it has users,
-- at most `size` of them, and counts them.
pub record Shard (size main_id shard : ℕ) (t : SubTask) : Type 0 where
  pub of_main : t.main_task_id ≡ main_id
  pub waits : t.status ≡ TaskStatus.pending
  pub later : shard ≤ t.shard_index
  pub some_users : 0 < length (parse_sub_user_ids t.user_ids)
  pub few_users : length (parse_sub_user_ids t.user_ids) ≤ size
  pub counted : t.total_count ≡ length (parse_sub_user_ids t.user_ids)

later-Shard :
    (size main_id shard : ℕ) (ts : List SubTask)
    → All (Shard size main_id (suc shard)) ts
    → All (Shard size main_id shard) ts
later-Shard size main_id shard [] h = tt
later-Shard size main_id shard (t ∷ ts) (h, hs) = (
  record {
    of_main = h.of_main;
    waits = h.waits;
    later = omega (arith, h.later);
    some_users = h.some_users;
    few_users = h.few_users;
    counted = h.counted;
  },
  later-Shard size main_id shard ts hs,
)

module _ (size : ℕ) (positive : 0 < size) (new_id : ℕ → ℕ) (main_id : ℕ) where
  retry_shard-Shard :
      (id shard : ℕ) (u : String) (us : List String)
      → Shard size main_id shard (retry_shard id main_id shard (take size (u ∷ us)))
  unfolding retry_shard parse_sub_user_ids
  retry_shard-Shard id shard u us = record {
    of_main = refl;
    waits = refl;
    later = omega arith;
    some_users = nonempty size positive;
    few_users = length-take size (u ∷ us);
    counted = refl;
  }
    where
      nonempty : (n : ℕ) → 0 < n → 0 < length (take n (u ∷ us))
      nonempty zero h = absurd (omega (arith, h))
      nonempty (suc n) h = omega arith

  retry_shards-Shard :
      (fuel n shard : ℕ) (users : List String)
      → All (Shard size main_id shard) (retry_shards fuel size new_id n main_id shard users)
  unfolding retry_shards
  retry_shards-Shard zero n shard users = tt
  retry_shards-Shard (suc fuel) n shard [] = tt
  retry_shards-Shard (suc fuel) n shard (u ∷ us) = (
    retry_shard-Shard (new_id n) shard u us,
    later-Shard size main_id shard
        (retry_shards fuel size new_id (suc n) main_id (suc shard) (drop size (u ∷ us)))
        (retry_shards-Shard fuel (suc n) (suc shard) (drop size (u ∷ us))),
  )

  drop-shorter :
      (fuel : ℕ) (u : String) (us : List String)
      → length (u ∷ us) ≤ suc fuel
      → length (drop size (u ∷ us)) ≤ fuel
  drop-shorter fuel u us h = go size positive
    where
      go : (n : ℕ) → 0 < n → length (drop n (u ∷ us)) ≤ fuel
      go zero k = absurd (omega (arith, k))
      go (suc n) k = omega (arith, h, length-drop n us)

  retry_shards-users :
      (fuel n shard : ℕ) (users : List String)
      → length users ≤ fuel
      → users_in (retry_shards fuel size new_id n main_id shard users) ≡ users
  unfolding retry_shards users_in parse_sub_user_ids retry_shard
  retry_shards-users zero n shard [] h = refl
  retry_shards-users zero n shard (u ∷ us) h = absurd (omega (arith, h))
  retry_shards-users (suc fuel) n shard [] h = refl
  retry_shards-users (suc fuel) n shard (u ∷ us) h =
      ap (λ rest. take size (u ∷ us) ++ rest)
        (retry_shards-users fuel (suc n) (suc shard) (drop size (u ∷ us))
          (drop-shorter fuel u us h))
      ∙ take-drop size (u ∷ us)

-- The shards that a campaign has are numbered below the next one.
next_shard-above :
    (main_id : ℕ) (subs : List SubTask)
    → All (λ t. t.main_task_id ≡ main_id → t.shard_index < next_shard main_id subs) subs
unfolding next_shard
next_shard-above main_id [] = tt
next_shard-above main_id (t ∷ ts) = (
  λ e. ground (arith, e),
  All-weaken ts (λ x h e. ground (arith, h e)) (next_shard-above main_id ts),
)

-- The sub tasks for `users` are cut into shards in their order, with none lost or put twice, however
-- many users there are: a shard is of the campaign and waits for a worker; it has one user at least
-- and `size` at most, which is not zero, and counts them; and its number is above that of every sub
-- task that the campaign has.
pub retry_shards-Cut :
    (size : ℕ) (new_id : ℕ → ℕ) (main_id : ℕ) (users : List String) (subs : List SubTask)
    → 0 < size
    → (users_in (retry_shards (length users) size new_id 0 main_id (next_shard main_id subs) users)
        ≡ users)
      × All
          (Shard size main_id (next_shard main_id subs))
          (retry_shards (length users) size new_id 0 main_id (next_shard main_id subs) users)
      × All (λ t. t.main_task_id ≡ main_id → t.shard_index < next_shard main_id subs) subs
retry_shards-Cut size new_id main_id users subs positive = (
  retry_shards-users size positive new_id main_id (length users) 0 (next_shard main_id subs) users
      (omega arith),
  retry_shards-Shard size positive new_id main_id (length users) 0 (next_shard main_id subs) users,
  next_shard-above main_id subs,
)
