-- ===== src/Gateway/Snapshot.antt =====
-- internal/push/gateway.go: loadMainSnap, sweepMainCacheLocked, InvalidateMainCache and
-- checkMainGate.
use startlink.Base.{
  ℕ, ◌+◌, Bool, true, false, not, List, [], ◌∷◌, Option, none, some, ◌==◌, ltb, leb, if◌then◌else◌,
  length, first_where, delete_where,
}
use startlink.Domain.Status.{TaskStatus}
use startlink.Domain.Schedule.{SendWindow}
use startlink.Gateway.Services.{
  Services, World, CacheEntry, MainReply, found, missing, failing, SendError, tick,
}

pub data SnapReply : Type 0 where
  snap : TaskStatus → List SendWindow → SnapReply
  unavailable : SnapReply

-- mainStatusCacheTTL, 300 ms, and mainCacheSoftLimit
abbrev pub cache_ttl : ℕ
cache_ttl = 300000000

abbrev pub soft_limit : ℕ
soft_limit = 1024

-- sweepMainCacheLocked
unfoldable pub sweep : ℕ → List CacheEntry → List CacheEntry
sweep now cache =
    if leb (length cache) soft_limit
    then cache
    else (let live = delete_where (λ e. not (ltb now e.expires_at)) cache in
        if ltb soft_limit (length live) then [] else live)

-- `g.mainCache[id] = entry`
unfoldable pub put_entry : CacheEntry → List CacheEntry → List CacheEntry
put_entry entry cache = entry ∷ delete_where (λ e. e.task_id == entry.task_id) cache

-- InvalidateMainCache
unfoldable pub invalidate : ℕ → World → World
invalidate id w = record w { cache = delete_where (λ e. e.task_id == id) w.cache }

unfoldable pub remember : ℕ → ℕ → MainReply → World → SnapReply × World
unfolding sweep put_entry
remember now id (found status windows) w = (
  snap status windows,
  record w {
    cache = sweep now (
        put_entry
          (record {
            task_id = id;
            status = status;
            windows = windows;
            expires_at = now + cache_ttl;
          })
          w.cache);
  },
)
remember now id missing w = (unavailable, w)
remember now id failing w = (unavailable, w)

-- The query, after the clock was read.
unfoldable pub fetch : Services → ℕ → ℕ → World → SnapReply × World
unfolding remember tick
fetch s now id w = remember now id (s.main_at w.calls) (tick w)

unfoldable pub cached_or_fetch : Services → ℕ → ℕ → Option CacheEntry → World → SnapReply × World
unfolding fetch
cached_or_fetch s now id (some e) w =
    if ltb now e.expires_at then (snap e.status e.windows, w) else fetch s now id w
cached_or_fetch s now id none w = fetch s now id w

-- loadMainSnap
unfoldable pub load_main_snap : Services → Bool → ℕ → World → SnapReply × World
unfolding fetch cached_or_fetch tick
load_main_snap s true id w = fetch s (s.clock w.calls) id (tick w)
load_main_snap s false id w =
    cached_or_fetch s (s.clock w.calls) id (first_where (λ e. e.task_id == id) w.cache) (tick w)

unfoldable pub gate_of : SnapReply → Option SendError
gate_of unavailable = some SendError.main_unavailable
gate_of (snap TaskStatus.cancelled windows) = some SendError.main_cancelled
gate_of (snap TaskStatus.paused windows) = some SendError.main_paused
gate_of (snap _ windows) = none

-- checkMainGate
unfoldable pub check_main_gate : Services → Bool → ℕ → World → Option SendError × World
unfolding gate_of
check_main_gate s force id w = let r = load_main_snap s force id w in (gate_of r.0, r.1)
