-- ===== src/Scheduler/Worker/Published.antt =====
-- internal/scheduler/worker.go: which messages are published.
use startlink.Base.{
  ℕ, ◌%◌, Bool, true, false, ◌||◌, List, [], ◌++◌, ◌==◌, str_eq, take, Reply, ok, err, ◌≡◌, refl,
  inl, inr, Bool-cases,
}
use startlink.Tasks.Rows.{SubTask, UserIds, document, malformed}
use startlink.Gateway.Services.{PushMessage}
use startlink.Aggregator.Steps
use startlink.Scheduler.Campaign.{Campaign}
use startlink.Scheduler.World.{Services, World, calls_of, on_subs}
use startlink.Scheduler.Messages.{build_messages}
use startlink.Scheduler.Worker.{
  Work, fine, broke, after_renewal, renew_claim, before_message, renew_claim_every,
}

-- Some messages of the list went out, from its front; all of them if there was no error.
abbrev pub Out : List PushMessage → List PushMessage → Work × World → Type 0
Out before msgs (fine, w) = w.published ≡ before ++ msgs
Out before msgs (broke e, w) = (n : ℕ) × (w.published ≡ before ++ take n msgs)

module _ (s : Services) where
  -- A step that publishes nothing.
  abbrev pub Quiet : List PushMessage → Work × World → Type 0
  Quiet before r = r.1.published ≡ before

  after_renewal-Quiet : (r : Reply Bool) (w : World) → Quiet w.published (after_renewal (r, w))
  unfolding after_renewal
  after_renewal-Quiet err w = refl
  after_renewal-Quiet (ok false) w = refl
  after_renewal-Quiet (ok true) w = refl

  renew_claim-Quiet : (st : SubTask) (w : World) → Quiet w.published (renew_claim s st w)
  unfolding renew_claim
  renew_claim-Quiet st w = elim (Bool-cases (st.id == 0 || str_eq st.worker_id "")) [
    | inl e ↦ rw e refl
    | inr e ↦ rw e (unfold on_subs in after_renewal-Quiet _ _)
  ]

  pub before_message-Quiet :
      (st : SubTask) (i : ℕ) (w : World) → Quiet w.published (before_message s st i w)
  unfolding before_message
  before_message-Quiet st i w = elim (Bool-cases (i == 0)) [
    | inl e ↦ rw e refl
    | inr e ↦ elim (Bool-cases (s.cancelled_at (calls_of w))) [
      | inl f ↦ rw (e, f) refl
      | inr f ↦ elim (Bool-cases (i % renew_claim_every == 0)) [
        | inl g ↦ rw (e, f, g) (renew_claim-Quiet st w)
        | inr g ↦ rw (e, f, g) refl
      ]
    ]
  ]

  -- Some messages went out, from the front of the list.
  abbrev pub Front : List PushMessage → List PushMessage → World → Type 0
  Front before msgs w = (n : ℕ) × (w.published ≡ before ++ take n msgs)

  -- The messages of a sub task with a document.
  abbrev pub messages_in : Campaign → SubTask → UserIds → List PushMessage
  messages_in c st malformed = []
  messages_in c st (document p) = build_messages c st p p.user_ids
