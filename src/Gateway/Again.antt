-- ===== src/Gateway/Again.antt =====
-- internal/push/gateway.go: sendOne for a message that was delivered before.
use startlink.Base.{ℕ, ◌+◌, Bool, ◌≡◌, ◌≢◌, inl, inr, arith}
use startlink.Domain.Channel.{ChannelType}
use startlink.Records.Rows.{PushRecord}
use startlink.Records.Claim.{claimed}
use startlink.Records.Exclusion.{key_of}
use startlink.Records.Delivered.{IsDelivered, KeepDelivered, claim_delivery-IsDelivered}
use startlink.Gateway.Services.{Services, World, PushMessage}
use startlink.Gateway.Sending.{new_record, claim, known_delivered, send_one}
use startlink.Gateway.Licence.{send_one-IsLicensed}

-- The key of the message's delivery over a channel.
abbrev pub delivery_key : Services → PushMessage → ChannelType → PushRecord → Bool
delivery_key s m ch = key_of (new_record m ch (s.content_of m ch).body)

known_delivered-records : (s : Services) (w : World) → (known_delivered s w).1.records ≡ w.records
unfolding known_delivered
known_delivered-records s w = ground arith

claim-unclaimed :
    (s : Services) (m : PushMessage) (ch : ChannelType) (w : World) (id : ℕ)
    → KeepDelivered (delivery_key s m ch) s.others
    → IsDelivered (delivery_key s m ch) w.records
    → (claim s m ch (s.content_of m ch).body w).0 ≢ claimed id
unfolding claim
claim-unclaimed s m ch w id keep v =
    claim_delivery-IsDelivered (λ i. s.db_fails (w.calls + i)) (λ i. s.others (w.calls + i))
      (s.clock w.calls) (s.new_id w.calls) id (new_record m ch (s.content_of m ch).body) w.records
      (λ n rows. keep (w.calls + n) rows) v

-- A message that was delivered to a user over a channel is not sent there again: sendOne calls no
-- sender, whatever fails and whatever the cache answers, so long as the other processes leave the
-- record of the delivery a delivered one.
pub send_one-IsDelivered :
    (s : Services) (m : PushMessage) (ch : ChannelType) (w : World)
    → KeepDelivered (delivery_key s m ch) s.others
    → IsDelivered (delivery_key s m ch) w.records
    → (send_one s m ch w).1.sent ≡ w.sent
send_one-IsDelivered s m ch w keep v = elim (send_one-IsLicensed s m ch w) [
  | inl e ↦ e
  | inr (id, licence, calls) ↦ absurd (
      claim-unclaimed s m ch (known_delivered s w).1 id keep (rw (known_delivered-records s w) v)
        licence.owned)
]
