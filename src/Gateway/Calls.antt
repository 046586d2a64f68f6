-- ===== src/Gateway/Calls.antt =====
-- internal/push/gateway.go: which parts of the gateway call no sender.
use startlink.Base.{
  ℕ, suc, ◌≤◌, String, Bool, true, false, List, [], ◌∷◌, Option, none, some, ◌≡◌, refl, ◌∙◌, arith,
  if◌then◌else◌, str_eq, first_where, ◌==◌,
}
use startlink.Domain.Status.{PushStatus}
use startlink.Domain.Channel.{ChannelType}
use startlink.Records.Claim.{ClaimReply, claimed, duplicate, in_flight, claim_error}
use startlink.Gateway.Services.{
  Services, World, PushMessage, CacheEntry, MainReply, found, missing, failing, tick, set_status,
}
use startlink.Gateway.Snapshot.{remember, fetch, cached_or_fetch, load_main_snap, check_main_gate}
use startlink.Gateway.Checks.{
  PrefReply, preference, unknown, resolve_preference, by_list, check_unsubscribed, allow_freq,
  wait_token, quiet_by, in_user_quiet_hours,
}
use startlink.Gateway.Attempts.{record_delivery}
use startlink.Gateway.Sending.{claim, settle, mark_cancelled, known_delivered}
use startlink.Gateway.Handler.{expire_each, mark_expired, or_channel}
use startlink.Gateway.Services.{effective_channels}

pub set_status-sent :
    (s : Services) (id : ℕ) (status : PushStatus) (error_msg : String) (w : World)
    → (set_status s id status error_msg w).sent ≡ w.sent
unfolding set_status
set_status-sent s id status error_msg w = refl

remember-sent : (now id : ℕ) (r : MainReply) (w : World) → (remember now id r w).1.sent ≡ w.sent
unfolding remember
remember-sent now id (found status windows) w = refl
remember-sent now id missing w = refl
remember-sent now id failing w = refl

fetch-sent : (s : Services) (now id : ℕ) (w : World) → (fetch s now id w).1.sent ≡ w.sent
unfolding fetch tick
fetch-sent s now id w = remember-sent now id (s.main_at w.calls) (tick w)

cached_or_fetch-sent :
    (s : Services) (now id : ℕ) (e : Option CacheEntry) (w : World)
    → (cached_or_fetch s now id e w).1.sent ≡ w.sent
unfolding cached_or_fetch
cached_or_fetch-sent s now id none w = fetch-sent s now id w
cached_or_fetch-sent s now id (some e) w = ground (arith, fetch-sent s now id w)

remember-calls : (now id : ℕ) (r : MainReply) (w : World) → (remember now id r w).1.calls ≡ w.calls
unfolding remember
remember-calls now id (found status windows) w = refl
remember-calls now id missing w = refl
remember-calls now id failing w = refl

fetch-calls : (s : Services) (now id : ℕ) (w : World) → (fetch s now id w).1.calls ≡ suc w.calls
unfolding fetch tick
fetch-calls s now id w = remember-calls now id (s.main_at w.calls) (tick w)

cached_or_fetch-calls :
    (s : Services) (now id : ℕ) (e : Option CacheEntry) (w : World)
    → w.calls ≤ (cached_or_fetch s now id e w).1.calls
unfolding cached_or_fetch
cached_or_fetch-calls s now id none w = omega (arith, fetch-calls s now id w)
cached_or_fetch-calls s now id (some e) w = ground (arith, fetch-calls s now id w)

pub load_main_snap-sent :
    (s : Services) (force : Bool) (id : ℕ) (w : World)
    → (load_main_snap s force id w).1.sent ≡ w.sent
unfolding load_main_snap tick
load_main_snap-sent s true id w = fetch-sent s (s.clock w.calls) id (tick w)
load_main_snap-sent s false id w = cached_or_fetch-sent s (s.clock w.calls) id _ (tick w)

pub check_main_gate-sent :
    (s : Services) (force : Bool) (id : ℕ) (w : World)
    → (check_main_gate s force id w).1.sent ≡ w.sent
unfolding check_main_gate
check_main_gate-sent s force id w = load_main_snap-sent s force id w

resolve_preference-sent :
    (s : Services) (m : PushMessage) (w : World) → (resolve_preference s m w).1.sent ≡ w.sent
unfolding resolve_preference tick
resolve_preference-sent s m w = ground arith

by_list-sent :
    (s : Services) (m : PushMessage) (ch : ChannelType) (b : Option Bool) (w : World)
    → (by_list s m ch b w).1.sent ≡ w.sent
unfolding by_list
by_list-sent s m ch none w = ground (arith, resolve_preference-sent s m w)
by_list-sent s m ch (some true) w = refl
by_list-sent s m ch (some false) w = resolve_preference-sent s m w

pub check_unsubscribed-sent :
    (s : Services) (m : PushMessage) (ch : ChannelType) (w : World)
    → (check_unsubscribed s m ch w).1.sent ≡ w.sent
unfolding check_unsubscribed tick
check_unsubscribed-sent s m ch w =
    ground (
      arith,
      by_list-sent s m ch (s.unsubscribed_at w.calls) (tick w),
      resolve_preference-sent s m w,
    )

pub allow_freq-sent :
    (s : Services) (m : PushMessage) (ch : ChannelType) (w : World)
    → (allow_freq s m ch w).1.sent ≡ w.sent
unfolding allow_freq tick
allow_freq-sent s m ch w = ground arith

pub wait_token-sent : (s : Services) (w : World) → (wait_token s w).1.sent ≡ w.sent
unfolding wait_token tick
wait_token-sent s w = ground arith

quiet_by-sent :
    (s : Services) (m : PushMessage) (p : PrefReply) (w : World)
    → (quiet_by s m p w).1.sent ≡ w.sent
unfolding quiet_by tick
quiet_by-sent s m unknown w = refl
quiet_by-sent s m (preference p) w = refl

pub in_user_quiet_hours-sent :
    (s : Services) (m : PushMessage) (w : World) → (in_user_quiet_hours s m w).1.sent ≡ w.sent
unfolding in_user_quiet_hours
in_user_quiet_hours-sent s m w =
    let r = resolve_preference s m w in
    ground (arith, quiet_by-sent s m r.0 r.1, resolve_preference-sent s m w)

pub record_delivery-sent :
    (s : Services) (id : ℕ) (status : PushStatus) (provider provider_id error_msg : String)
    (w : World)
    → (record_delivery s id status provider provider_id error_msg w).1.sent ≡ w.sent
unfolding record_delivery
record_delivery-sent s id status provider provider_id error_msg w = refl

pub claim-sent :
    (s : Services) (m : PushMessage) (ch : ChannelType) (content : String) (w : World)
    → (claim s m ch content w).1.sent ≡ w.sent
unfolding claim
claim-sent s m ch content w = refl

pub settle-sent :
    (s : Services) (status : PushStatus) (reason : String) (c : ClaimReply) (w : World)
    → (settle s status reason (c, w)).sent ≡ w.sent
unfolding settle
settle-sent s status reason (claimed id) w = set_status-sent s id status reason w
settle-sent s status reason (duplicate id) w = refl
settle-sent s status reason (in_flight id) w = refl
settle-sent s status reason claim_error w = refl

pub settle-claim-sent :
    (s : Services) (status : PushStatus) (reason : String) (m : PushMessage) (ch : ChannelType)
    (content : String) (w : World)
    → (settle s status reason (claim s m ch content w)).sent ≡ w.sent
settle-claim-sent s status reason m ch content w =
    let c = claim s m ch content w in
    settle-sent s status reason c.0 c.1 ∙ claim-sent s m ch content w

pub mark_cancelled-sent :
    (s : Services) (m : PushMessage) (ch : ChannelType) (content : String) (w : World)
    → (mark_cancelled s m ch content w).sent ≡ w.sent
unfolding mark_cancelled
mark_cancelled-sent s m ch content w =
    settle-claim-sent s PushStatus.cancelled "main task cancelled" m ch content w

pub known_delivered-sent : (s : Services) (w : World) → (known_delivered s w).1.sent ≡ w.sent
unfolding known_delivered tick
known_delivered-sent s w = ground arith

skip-sent : (b : Bool) (w w' : World) → w'.sent ≡ w.sent → (if b then w else w').sent ≡ w.sent
skip-sent true w w' e = refl
skip-sent false w w' e = e

expire_each-sent :
    (s : Services) (m : PushMessage) (chs : List ChannelType) (w : World)
    → (expire_each s m chs w).sent ≡ w.sent
unfolding expire_each
expire_each-sent s m [] w = refl
expire_each-sent s m (ch ∷ chs) w =
    expire_each-sent s m chs _
    ∙ skip-sent (str_eq ch "") w _
        (settle-claim-sent s PushStatus.expired "campaign expired" m ch (s.content_of m ch).body w)

pub mark_expired-sent :
    (s : Services) (m : PushMessage) (w : World) → (mark_expired s m w).sent ≡ w.sent
unfolding mark_expired
mark_expired-sent s m w = expire_each-sent s m (or_channel m.channel (effective_channels m)) w

pub load_main_snap-calls :
    (s : Services) (force : Bool) (id : ℕ) (w : World)
    → w.calls ≤ (load_main_snap s force id w).1.calls
unfolding load_main_snap tick
load_main_snap-calls s true id w = omega (arith, fetch-calls s (s.clock w.calls) id (tick w))
load_main_snap-calls s false id w = omega (
  arith,
  cached_or_fetch-calls s (s.clock w.calls) id (first_where (λ e. e.task_id == id) w.cache)
      (tick w),
)
