-- ===== src/Gateway/Recorded.antt =====
-- internal/push/gateway.go: an acknowledged doSend leaves a delivered record.
use startlink.Base.{
  ℕ, ◌+◌, String, Bool, true, false, List, none, some, ◌≡◌, refl, ap, ◌∙◌, inl, inr, arith, ◌⊎◌,
  ◌==◌, ==_refl, Bool-cases, if◌then◌else◌, Reply, ok, err, Update, first_where, update_where,
  first_where-update, on_row, str_eq,
}
use mathlib.Core.Option
use startlink.Domain.Status.{PushStatus, delivered_ok, can_transit_to}
use startlink.Domain.Channel.{ChannelType}
use startlink.Records.Rows.{PushRecord}
use startlink.Records.Writes.{update_record_delivery, write_delivery, delivery_set, wants_write}
use startlink.Records.Exclusion.{key_of}
use startlink.Records.Delivered.{IsDelivered}
use startlink.Records.Forward.{by_id}
use startlink.Gateway.Services.{
  Services, World, PushMessage, SendError, Outcome, delivered, failed_with,
}
use startlink.Gateway.Attempts.{
  LoopEnd, after_send, left, attempts, record_delivery, unless_failed, conclude, do_send,
}
use startlink.Gateway.Untouched.{EndsAt, attempts-EndsAt}

-- The write of `sent` to a record that is sending.
written :
    (rec r : PushRecord) (now : ℕ) (provider provider_id : String) (rows : List PushRecord)
    → first_where (key_of rec) rows ≡ some r
    → IsDelivered (key_of rec) (
        update_where
          (λ x. x.id == r.id)
          (delivery_set now r PushStatus.sent provider provider_id "")
          rows)
unfolding delivered_ok
written rec r now provider provider_id rows e =
    let set = delivery_set now r PushStatus.sent provider provider_id "" in
    let u : Update PushRecord = record { hits = λ x. x.id == r.id; sets = set } in
    record {
      holder = set r;
      found =
          first_where-update (key_of rec) u rows (λ x. unfold delivery_set in refl)
          ∙ (ap (Option.map (on_row u)) e ∙ ap some (ground (arith, ==_refl r.id)));
      done = unfold delivery_set in refl;
    }

sending-written :
    (fails : Bool) (rec r : PushRecord) (now : ℕ) (provider provider_id : String)
    (rows : List PushRecord)
    → first_where (key_of rec) rows ≡ some r
    → r.status ≡ PushStatus.sending
    → (write_delivery fails now (some r) PushStatus.sent provider provider_id "" rows ≡ (err, rows))
      ⊎ IsDelivered
          (key_of rec)
          (write_delivery fails now (some r) PushStatus.sent provider provider_id "" rows).1
unfolding write_delivery
sending-written fails rec r now provider provider_id rows e s =
    let wanted : wants_write r PushStatus.sent provider provider_id "" ≡ true =
      unfold wants_write can_transit_to in ground arith in
    elim (Bool-cases fails) [
      | inl broken ↦ inl (rw (wanted, broken) refl)
      | inr works ↦ inr (rw (wanted, works) (written rec r now provider provider_id rows e))
    ]

-- No other process writes to the records.
abbrev pub IsAlone : (ℕ → List PushRecord → List PushRecord) → Type 0
IsAlone others = (n : ℕ) (rows : List PushRecord) → others n rows ≡ rows

-- The key and the id find the same record, which is sending.
pub record IsSending (rec : PushRecord) (id : ℕ) (rows : List PushRecord) : Type 0 where
  pub holder : PushRecord
  pub by_key : first_where (key_of rec) rows ≡ some holder
  pub by_number : first_where (by_id id) rows ≡ some holder
  pub in_progress : holder.status ≡ PushStatus.sending

update-written :
    (f : ℕ → Bool) (others : ℕ → List PushRecord → List PushRecord) (rec : PushRecord) (now id : ℕ)
    (provider provider_id : String) (rows : List PushRecord)
    → IsAlone others
    → IsSending rec id rows
    → let p = update_record_delivery f others now id PushStatus.sent provider provider_id "" rows in
      (p.0 ≡ err) ⊎ IsDelivered (key_of rec) p.1
unfolding update_record_delivery
update-written f others rec now id provider provider_id rows only v = elim (Bool-cases (f 0)) [
  | inl broken ↦ inl (rw broken refl)
  | inr works ↦
      rw (works, only 0 rows, only 1 rows, v.by_number)
        (elim (sending-written (f 1) rec v.holder now provider provider_id rows v.by_key
          v.in_progress) [ inl e ↦ inl (ap (λ p. p.0) e) | inr d ↦ inr d ])
]

unless_failed-err : (r : Reply Bool) (o : Outcome) → r ≡ err → (unless_failed r o).ok ≡ false
unfolding unless_failed
unless_failed-err r o e = rw e refl

unless_failed-stopped :
    (r : Reply Bool) → (unless_failed r (failed_with (SendError.other "send failed"))).ok ≡ false
unfolding unless_failed
unless_failed-stopped (ok b) = refl
unless_failed-stopped err = refl

module _ (s : Services) (ch : ChannelType) (id : ℕ) (rec : PushRecord) where
  conclude-IsDelivered :
      (end : LoopEnd) (w : World) (rows : List PushRecord)
      → IsAlone s.others
      → IsSending rec id rows
      → EndsAt rows (end, w)
      → (conclude s ch id end w).0.ok ≡ true
      → IsDelivered (key_of rec) (conclude s ch id end w).1.records
  unfolding conclude record_delivery
  conclude-IsDelivered (left o) w rows only v e h = cc
  conclude-IsDelivered (after_send none none) w rows only v e h =
      absurd (cc (unless_failed-stopped _, h))
  conclude-IsDelivered (after_send none (some x)) w rows only v e h =
      absurd (cc (unless_failed-stopped _, h))
  conclude-IsDelivered (after_send (some r) (some x)) w rows only v e h =
      absurd (cc (unless_failed-stopped _, h))
  conclude-IsDelivered (after_send (some r) none) w rows only v e h = elim (Bool-cases r.success) [
    | inr bad ↦ absurd (cc (unless_failed-stopped _, rw bad at h))
    | inl good ↦
        rw good
          (elim (update-written (λ i. s.db_fails (w.calls + i)) (λ i. s.others (w.calls + i)) rec
            (s.clock w.calls) id (if str_eq r.provider "" then ch else r.provider) r.provider_id
            w.records (λ n rows'. only (w.calls + n) rows') (rw e v)) [
              | inl broken ↦ absurd (cc (unless_failed-err _ delivered broken, rw good at h))
              | inr d ↦ d
            ])
  ]

-- When doSend, run for a record that is sending, answers that the message was delivered, the record
-- is one of a delivered message. No other process writes to the records meanwhile.
pub do_send-IsDelivered :
    (s : Services) (m : PushMessage) (ch : ChannelType) (id : ℕ) (rec : PushRecord) (w : World)
    → IsAlone s.others
    → IsSending rec id w.records
    → (do_send s m ch id w).0.ok ≡ true
    → IsDelivered (key_of rec) (do_send s m ch id w).1.records
unfolding do_send
do_send-IsDelivered s m ch id rec w only v h = elim (Bool-cases (s.registered ch)) [
  | inr absent ↦ absurd (ground (arith, h))
  | inl there ↦
      let end = attempts s m ch id (s.max_retry ch) false w in
      rw there (
        conclude-IsDelivered s ch id rec end.0 end.1 w.records only v
          (attempts-EndsAt s ch id w.records m (s.max_retry ch) false w refl) (ground (arith, h)))
]
