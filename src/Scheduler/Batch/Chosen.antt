-- ===== src/Scheduler/Batch/Chosen.antt =====
-- internal/scheduler/splitter.go: who is put into a sub task.
use startlink.Base.{
  String, Bool, not, ◌&&◌, List, [], ◌∷◌, ◌++◌, str_eq, any, if◌then◌else◌, ◌≡◌, refl, arith, inl,
  inr, Bool-cases, length, ltb, sym, ◌∙◌,
}
use mathlib.Core.List.{append_assoc, append-nil}
use startlink.Domain.Channel.{ChannelType}
use startlink.Scheduler.Sampling.{control}
use startlink.Scheduler.Campaign.{Campaign, TargetUser, channel_list, intersect_channels}
use startlink.Scheduler.Batch.{
  Batch, has_experiment, group_of, is_sampled_out, place, assign, with_group, add_user, add_users,
}

-- Whether the campaign is for the user, in one test.
abbrev pub is_for : Campaign → List String → TargetUser → Bool
is_for c excluded u =
    not (str_eq u.user_id "")
    && not (any (str_eq u.user_id) excluded)
    && (if has_experiment c then not (str_eq (group_of c u) control) else not (is_sampled_out c u))
    && ltb 0 (length (intersect_channels (channel_list c) u.channels))

-- The ids of the users that the campaign is for, in their order.
unfoldable pub ids_for : Campaign → List String → List TargetUser → List String
ids_for c excluded [] = []
ids_for c excluded (u ∷ us) =
    let rest = ids_for c excluded us in if is_for c excluded u then u.user_id ∷ rest else rest

place-ids :
    (u : TargetUser) (extra : List (String × String)) (chs : List ChannelType) (b : Batch)
    → (place u extra chs b).payload.user_ids
      ≡ (if ltb 0 (length chs) then b.payload.user_ids ++ (u.user_id ∷ []) else b.payload.user_ids)
unfolding place
place-ids u extra [] b = refl
place-ids u extra (c ∷ cs) b = ground arith

assign-payload : (c : Campaign) (u : TargetUser) (b : Batch) → (assign c u b).payload ≡ b.payload
unfolding assign
assign-payload c u b = refl

add_user-ids :
    (c : Campaign) (excluded : List String) (u : TargetUser) (b : Batch)
    → (add_user c excluded u b).payload.user_ids
      ≡ (if is_for c excluded u then b.payload.user_ids ++ (u.user_id ∷ []) else b.payload.user_ids)
unfolding add_user
add_user-ids c excluded u b =
    let chs = intersect_channels (channel_list c) u.channels in
    ground (
      arith,
      place-ids u (with_group c u) chs (assign c u b),
      place-ids u u.extra chs b,
      assign-payload c u b,
    )

append-cons : (xs ys : List String) (x : String) → (xs ++ (x ∷ [])) ++ ys ≡ xs ++ (x ∷ ys)
append-cons xs ys x = append_assoc xs (x ∷ []) ys

pub add_users-ids :
    (c : Campaign) (excluded : List String) (us : List TargetUser) (b : Batch)
    → (add_users c excluded us b).payload.user_ids ≡ b.payload.user_ids ++ ids_for c excluded us
unfolding add_users ids_for
add_users-ids c excluded [] b = sym (append-nil b.payload.user_ids)
add_users-ids c excluded (u ∷ us) b =
    add_users-ids c excluded us (add_user c excluded u b)
    ∙ (elim (Bool-cases (is_for c excluded u)) [
      | inl e ↦
          rw (add_user-ids c excluded u b, e)
            (append-cons b.payload.user_ids (ids_for c excluded us) u.user_id)
      | inr e ↦ rw (add_user-ids c excluded u b, e) refl
    ])
