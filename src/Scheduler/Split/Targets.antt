-- ===== src/Scheduler/Split/Targets.antt =====
-- internal/scheduler/splitter.go: what the sub tasks that Split inserts hold.
use startlink.Base.{
  ℕ, zero, suc, ◌+◌, ◌<◌, String, Bool, true, false, ◌||◌, List, [], ◌∷◌, ◌++◌, Option, none, some,
  ltb, Reply, ok, err, All, length, ◌≡◌, refl, ap, ◌∙◌, arith, inl, inr, Bool-cases, str_eq,
}
use startlink.Domain.Status.{TaskStatus}
use startlink.Tasks.Rows.{MainTask, SubTask, SubPayload, document, task_eq}
use startlink.Scheduler.Campaign.{Campaign, TargetUser, AudiencePage}
use startlink.Scheduler.Batch.{Batch, empty_batch, add_users, ExperimentAssignment}
use startlink.Scheduler.Batch.Chosen.{ids_for, add_users-ids}
use startlink.Scheduler.World.{Services, World, calls_of, load_row, on_mains, on_subs}
use startlink.Scheduler.Splitter.{
  Progress, RoundEnd, failed, last, next, LoopEnd, stopped, done, cancel_subs, new_sub_task,
  log_created, insert_leased, patch_total, turn_page, after_insert, save_assigns, write_ids,
  write_batch, read_users, after_resolve, resolve, after_lease, renew, after_status, round,
  split_pages,
}

abbrev pub users_in : List SubTask → ℕ
users_in [] = 0
users_in (t ∷ ts) = t.total_count + users_in ts

-- The shards are numbered in order, from `k`.
abbrev pub Numbered : ℕ → List SubTask → Type 0
Numbered k [] = Unit
Numbered k (t ∷ ts) = (t.shard_index ≡ k) × Numbered (suc k) ts

users_in-append :
    (ts : List SubTask) (t : SubTask) → users_in (ts ++ (t ∷ [])) ≡ users_in ts + t.total_count
users_in-append [] t = omega arith
users_in-append (u ∷ ts) t = omega (arith, users_in-append ts t)

length-append : (ts : List SubTask) (t : SubTask) → length (ts ++ (t ∷ [])) ≡ suc (length ts)
length-append [] t = refl
length-append (u ∷ ts) t = ap suc (length-append ts t)

Numbered-append :
    (k : ℕ) (ts : List SubTask) (t : SubTask)
    → Numbered k ts
    → t.shard_index ≡ k + length ts
    → Numbered k (ts ++ (t ∷ []))
Numbered-append k [] t h e = (omega arith, tt)
Numbered-append k (u ∷ ts) t h e = (h.0, Numbered-append (suc k) ts t h.1 (omega arith))

module _ (s : Services) (c : Campaign) (excluded : List String) where
  -- The sub task holds those users of a page of the audience that the campaign is for, and someone.
  pub record IsFor (t : SubTask) : Type 0 where
    pub call : ℕ
    pub token : String
    pub page : AudiencePage
    pub payload : SubPayload
    pub answered : s.resolve_at call token ≡ some page
    pub held : t.user_ids ≡ document payload
    pub ids : payload.user_ids ≡ ids_for c excluded page.users
    pub counted : t.total_count ≡ length payload.user_ids
    pub someone : 0 < t.total_count
    pub campaign : t.main_task_id ≡ c.id

  -- The variables of the loop agree with the sub tasks inserted so far.
  pub record Agrees (p : Progress) (created : List SubTask) : Type 0 where
    pub for_campaign : All IsFor created
    pub users : p.total ≡ users_in created
    pub shards : p.shard ≡ length created
    pub numbered : Numbered 0 created
    pub wrote : p.wrote_any ≡ ltb 0 (length created)

  All-append :
      (ts : List SubTask) (t : SubTask) → All IsFor ts → IsFor t → All IsFor (ts ++ (t ∷ []))
  All-append [] t h k = (k, tt)
  All-append (u ∷ ts) t h k = (h.0, All-append ts t h.1 k)

  -- What a round leaves.
  abbrev After : RoundEnd × World → Type 0
  After (failed e, w) = All IsFor w.created
  After (last q, w) = Agrees q w.created
  After (next q, w) = Agrees q w.created

  turn_page-After :
      (page : AudiencePage) (p : Progress) (w : World)
      → Agrees p w.created
      → After (turn_page page p, w)
  unfolding turn_page
  turn_page-After page p w h = elim (Bool-cases page.has_more) [
    | inr at_end ↦ rw at_end h
    | inl more ↦
        elim (Bool-cases
          (str_eq page.next_page_token "" || str_eq page.next_page_token p.page_token)) [
            | inl stuck ↦ rw (more, stuck) h.for_campaign
            | inr moved ↦
                rw (more, moved)
                  (record {
                    for_campaign = h.for_campaign;
                    users = h.users;
                    shards = h.shards;
                    numbered = h.numbered;
                    wrote = h.wrote;
                  })
          ]
  ]

  -- What an insertion leaves, where `q` would be the variables after it.
  abbrev Inserted : Progress → Reply Bool × World → Type 0
  Inserted q (err, w) = All IsFor w.created
  Inserted q (ok false, w) = All IsFor w.created
  Inserted q (ok true, w) = Agrees q w.created

  abbrev counted : Batch → Progress → Progress
  counted b p = record p {
    shard = p.shard + 1;
    total = p.total + length b.payload.user_ids;
    wrote_any = true;
  }

  after_insert-After :
      (page : AudiencePage) (b : Batch) (p : Progress) (q : Reply Bool × World)
      → Inserted (counted b p) q
      → After (after_insert s c page b p q)
  unfolding after_insert patch_total on_mains
  after_insert-After page b p (err, w) h = h
  after_insert-After page b p (ok false, w) h = h
  after_insert-After page b p (ok true, w) h =
      elim (Bool-cases (ltb s.max_users (p.total + length b.payload.user_ids))) [
        | inl many ↦ rw many h.for_campaign
        | inr few ↦ rw few (
            turn_page-After page (counted b p)
              (patch_total s c.id (p.total + length b.payload.user_ids) 0 w) h)
      ]

  Agrees-append :
      (b : Batch) (p : Progress) (ts : List SubTask) (t : SubTask)
      → Agrees p ts
      → IsFor t
      → t.shard_index ≡ p.shard
      → t.total_count ≡ length b.payload.user_ids
      → Agrees (counted b p) (ts ++ (t ∷ []))
  Agrees-append b p ts t h k shard total = record {
    for_campaign = All-append ts t h.for_campaign k;
    users = omega (arith, users_in-append ts t, h.users);
    shards = omega (arith, length-append ts t, h.shards);
    numbered = Numbered-append 0 ts t h.numbered (omega (arith, h.shards));
    wrote = rw (length-append ts t) (ground arith);
  }

  log_created-Inserted :
      (b : Batch) (p : Progress) (w w' : World) (t : SubTask) (r : Reply Bool)
      → Agrees p w.created
      → IsFor t
      → t.shard_index ≡ p.shard
      → t.total_count ≡ length b.payload.user_ids
      → w'.created ≡ log_created r t w.created
      → Inserted (counted b p) (r, w')
  unfolding log_created
  log_created-Inserted b p w w' t err h k shard total e = rw e h.for_campaign
  log_created-Inserted b p w w' t (ok false) h k shard total e = rw e h.for_campaign
  log_created-Inserted b p w w' t (ok true) h k shard total e =
      rw e (Agrees-append b p w.created t h k shard total)

  insert_leased-Inserted :
      (owner : String) (b : Batch) (p : Progress) (w : World)
      → Agrees p w.created
      → IsFor (new_sub_task s c b p.shard w)
      → Inserted (counted b p) (insert_leased s c owner (new_sub_task s c b p.shard w) w)
  unfolding insert_leased new_sub_task
  insert_leased-Inserted owner b p w h k =
      log_created-Inserted b p w (insert_leased s c owner (new_sub_task s c b p.shard w) w).1
        (new_sub_task s c b p.shard w) (insert_leased s c owner (new_sub_task s c b p.shard w) w).0
        h k refl refl refl

  save_assigns-created :
      (as' : List ExperimentAssignment) (w : World) → (save_assigns s as' w).created ≡ w.created
  unfolding save_assigns
  save_assigns-created [] w = refl
  save_assigns-created (a ∷ as') w = ground arith

  write_ids-After :
      (owner : String) (page : AudiencePage) (b : Batch) (p : Progress) (ids : List String)
      (w : World)
      → Agrees p w.created
      → (0 < length ids → IsFor (new_sub_task s c b p.shard w))
      → After (write_ids s c owner page b p ids w)
  unfolding write_ids
  write_ids-After owner page b p [] w h k = turn_page-After page p w h
  write_ids-After owner page b p (u ∷ us) w h k =
      after_insert-After page b p (insert_leased s c owner (new_sub_task s c b p.shard w) w)
        (insert_leased-Inserted owner b p w h (k (omega arith)))

  new_sub_task-IsFor :
      (call : ℕ) (token : String) (page : AudiencePage) (us : List TargetUser) (shard : ℕ)
      (w : World)
      → s.resolve_at call token ≡ some page
      → us ≡ page.users
      → 0 < length (add_users c excluded us empty_batch).payload.user_ids
      → IsFor (new_sub_task s c (add_users c excluded us empty_batch) shard w)
  unfolding new_sub_task
  new_sub_task-IsFor call token page us shard w e same some_ids = record {
    call = call;
    token = token;
    page = page;
    payload = (add_users c excluded us empty_batch).payload;
    answered = e;
    held = refl;
    ids = add_users-ids c excluded us empty_batch ∙ ap (ids_for c excluded) same;
    counted = refl;
    someone = some_ids;
    campaign = refl;
  }

  read_users-After :
      (owner : String) (call : ℕ) (token : String) (page : AudiencePage) (p : Progress)
      (users : List TargetUser) (w : World)
      → Agrees p w.created
      → s.resolve_at call token ≡ some page
      → users ≡ page.users
      → After (read_users s c excluded owner page p users w)
  unfolding read_users write_batch
  read_users-After owner call token page p [] w h e same = turn_page-After page p w h
  read_users-After owner call token page p (u ∷ us) w h e same =
      let b = add_users c excluded (u ∷ us) empty_batch in
      let w' = save_assigns s b.assigns w in
      write_ids-After owner page b p b.payload.user_ids w' (rw (save_assigns-created b.assigns w) h)
        (new_sub_task-IsFor call token page (u ∷ us) p.shard w' e same)

  after_resolve-After :
      (owner : String) (call : ℕ) (token : String) (p : Progress) (o : Option AudiencePage)
      (w : World)
      → Agrees p w.created
      → s.resolve_at call token ≡ o
      → After (after_resolve s c excluded owner p (o, w))
  unfolding after_resolve
  after_resolve-After owner call token p none w h e = h.for_campaign
  after_resolve-After owner call token p (some page) w h e =
      read_users-After owner call token page p page.users w h e refl

  after_lease-After :
      (owner : String) (p : Progress) (r : Reply Bool) (w : World)
      → Agrees p w.created
      → After (after_lease s c excluded owner p (r, w))
  unfolding after_lease resolve
  after_lease-After owner p err w h = h.for_campaign
  after_lease-After owner p (ok false) w h = h.for_campaign
  after_lease-After owner p (ok true) w h =
      after_resolve-After owner (calls_of w) p.page_token p (s.resolve_at (calls_of w) p.page_token)
        _ h refl

  renew-created : (owner : String) (w : World) → (renew s c owner w).1.created ≡ w.created
  unfolding renew on_mains
  renew-created owner w = elim (Bool-cases (str_eq owner "")) [
    | inl e ↦ rw e refl
    | inr e ↦ rw e refl
  ]

  after_status-After :
      (owner : String) (p : Progress) (o : Option MainTask) (w : World)
      → Agrees p w.created
      → After (after_status s c excluded owner p (o, w))
  unfolding after_status
  after_status-After owner p none w h = h.for_campaign
  after_status-After owner p (some m) w h =
      elim (Bool-cases (task_eq m.status TaskStatus.cancelled)) [
        | inl e ↦ rw e (unfold cancel_subs on_subs in h.for_campaign)
        | inr e ↦ elim (Bool-cases (task_eq m.status TaskStatus.paused)) [
          | inl f ↦ rw (e, f) h.for_campaign
          | inr f ↦
              rw (e, f)
                (after_lease-After owner p (renew s c owner w).0 (renew s c owner w).1
                  (rw (renew-created owner w) h))
        ]
      ]

  round-After :
      (owner : String) (p : Progress) (w : World)
      → Agrees p w.created
      → After (round s c excluded owner p w)
  unfolding round load_row
  round-After owner p w h = after_status-After owner p _ _ h

  abbrev pub Ended : LoopEnd × World → Type 0
  Ended (stopped e, w) = All IsFor w.created
  Ended (done q, w) = Agrees q w.created

  pub split_pages-Ended :
      (owner : String) (pages : ℕ) (p : Progress) (w : World)
      → Agrees p w.created
      → Ended (split_pages s c excluded owner pages p w)
  unfolding split_pages
  split_pages-Ended owner zero p w h = h.for_campaign
  split_pages-Ended owner (suc pages) p w h =
      go (round s c excluded owner p w) (round-After owner p w h) (split_pages-Ended owner pages)
    where
      go :
          (r : RoundEnd × World)
          → After r
          → ((q : Progress) (v : World)
              → Agrees q v.created
              → Ended (split_pages s c excluded owner pages q v))
          → Ended (elim r.0 [
            | failed e ↦ (stopped e, r.1)
            | last q ↦ (done q, r.1)
            | next q ↦ split_pages s c excluded owner pages q r.1
          ])
      go (failed e, v) k ih = k
      go (last q, v) k ih = k
      go (next q, v) k ih = ih q v k
