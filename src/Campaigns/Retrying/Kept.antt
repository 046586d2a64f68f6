-- ===== src/Campaigns/Retrying/Kept.antt =====
-- internal/app/campaign/service.go: what of Retry writes neither main_tasks nor sub_tasks.
use startlink.Base.{
  ap, either, ℕ, ◌+◌, String, Bool, true, false, ◌&&◌, List, [], ◌∷◌, ◌++◌, ◌==◌, length, ◌≡◌, refl,
  ◌∙◌,
}
use startlink.Domain.Channel.{ChannelType}
use startlink.Tasks.Rows.{MainTask, SubTask}
use startlink.Tasks.Main.{reopen_main_task}
use startlink.Campaigns.{
  Services, World, Outcome, done, refused, and_then, nothing_to_retry, get, on_mains, read_subs,
  read_records, quiet, and_then-keeps, clear_delivered, set_sub_done,
}
use startlink.Campaigns.Realigning.{Totals, realign_counters, user_counts, write_counters}
use startlink.Campaigns.Retrying.{
  clear_channels, clear_users, clear_dedup, finish_retry, sync_unless, reopen_with,
}

abbrev subs_of {ℓ} : {A : Type ℓ} → Outcome A × World → List SubTask
subs_of r = r.1.subs

abbrev pub tables : World → List MainTask × List SubTask
tables w = (w.mains, w.subs)

module _ (s : Services) where
  clear_channels-tables :
      (id : ℕ) (user : String) (chs : List ChannelType) (w : World)
      → tables (clear_channels (quiet s) id user chs w) ≡ tables w
  unfolding clear_channels clear_delivered
  clear_channels-tables id user [] w = refl
  clear_channels-tables id user (ch ∷ chs) w =
      clear_channels-tables id user chs (clear_delivered (quiet s) id user ch w)

  clear_users-tables :
      (id : ℕ) (chs : List ChannelType) (us : List String) (w : World)
      → tables (clear_users (quiet s) id chs us w) ≡ tables w
  unfolding clear_users
  clear_users-tables id chs [] w = refl
  clear_users-tables id chs (u ∷ us) w =
      clear_users-tables id chs us (clear_channels (quiet s) id u chs w)
      ∙ clear_channels-tables id u chs w

  pub clear_dedup-tables :
      (task : MainTask) (us : List String) (w : World)
      → tables (clear_dedup (quiet s) task us w) ≡ tables w
  unfolding clear_dedup
  clear_dedup-tables task us w =
      either tables s.has_cache _ w (tables w) (clear_users-tables task.id _ us w) refl

  write_counters-subs :
      (id : ℕ) (t : Totals) (users : ℕ × ℕ) (w : World)
      → (write_counters (quiet s) id t users w).1.subs ≡ w.subs
  unfolding write_counters on_mains set_sub_done
  write_counters-subs id t users w =
      and_then-keeps (λ v. v.subs) _ _
        (λ b v.
          either subs_of s.has_cache _ (done tt, v) v.subs
            (either subs_of (s.cache_fails v.calls) _ _ v.subs refl refl) refl)

  user_counts-subs :
      (id : ℕ) (t : Totals) (w : World) → (user_counts (quiet s) id t w).1.subs ≡ w.subs
  unfolding user_counts read_records
  user_counts-subs id t w = either subs_of s.has_push_repo _ _ w.subs refl refl

  pub realign-subs : (id : ℕ) (w : World) → (realign_counters (quiet s) id w).1.subs ≡ w.subs
  unfolding realign_counters read_subs
  realign-subs id w =
      and_then-keeps (λ v. v.subs) (user_counts (quiet s) id _ _) _ (write_counters-subs id _)
      ∙ user_counts-subs id _ _

  pub finish-subs :
      (id : ℕ) (task : MainTask) (users reset new : ℕ) (w : World)
      → (finish_retry (quiet s) id task users reset new w).1.subs ≡ w.subs
  unfolding finish_retry get
  finish-subs id task users reset new w = realign-subs task.id w

  sync_unless-subs :
      (task : MainTask) (new : ℕ) (b : Bool) (w : World)
      → (sync_unless (quiet s) task new b w).1.subs ≡ w.subs
  unfolding sync_unless on_mains
  sync_unless-subs task new true w = refl
  sync_unless-subs task new false w = refl

  pub reopen_with-subs :
      (id : ℕ) (task : MainTask) (f e : List String) (reset new : ℕ) (w : World)
      → (reopen_with (quiet s) id task f e reset new w).1.subs ≡ w.subs
  unfolding reopen_with on_mains
  reopen_with-subs id task f e reset new w =
      let reopened =
        on_mains (quiet s) (λ fails now. reopen_main_task fails now task.id new)
          (clear_dedup (quiet s) task (f ++ e) w) in
      let synced = and_then reopened (sync_unless (quiet s) task new) in
      let finish = λ (b : Bool). finish_retry (quiet s) id task (length f + length e) reset new in
      either subs_of (reset == 0 && new == 0) (refused nothing_to_retry, w) (and_then synced finish)
        w.subs refl
        (and_then-keeps (λ v. v.subs) synced finish (λ b v. finish-subs id task _ reset new v)
          ∙ and_then-keeps (λ v. v.subs) reopened (sync_unless (quiet s) task new)
              (λ b v. sync_unless-subs task new b v)
          ∙ ap (λ t. t.1) (clear_dedup-tables task (f ++ e) w))
