-- ===== src/Gateway/Caching.antt =====
-- internal/push/gateway.go: the bound of the cache of the tasks, and its invalidation.
use startlink.Base.{
  ℕ, suc, ◌+◌, ◌≤◌, Bool, true, false, List, [], ◌∷◌, Option, none, some, ◌≡◌, refl, arith, ◌==◌,
  inl, inr, length, first_where, delete_where, ltb, Bool-cases,
}
use startlink.Gateway.Services.{
  Services, World, CacheEntry, MainReply, found, missing, failing, tick,
}
use startlink.Gateway.Snapshot.{
  cache_ttl, soft_limit, sweep, put_entry, invalidate, remember, fetch, cached_or_fetch,
  load_main_snap,
}

sweep-bound : (now : ℕ) (c : List CacheEntry) → length (sweep now c) ≤ soft_limit
unfolding sweep
sweep-bound now c = ground arith

abbrev pub IsCapped : World → Type 0
IsCapped w = length w.cache ≤ soft_limit

remember-IsCapped :
    (now id : ℕ) (r : MainReply) (w : World) → IsCapped w → IsCapped (remember now id r w).1
unfolding remember
remember-IsCapped now id (found status windows) w h =
    let e : CacheEntry = record {
      task_id = id;
      status = status;
      windows = windows;
      expires_at = now + cache_ttl;
    } in
    sweep-bound now (put_entry e w.cache)
remember-IsCapped now id missing w h = h
remember-IsCapped now id failing w h = h

cached_or_fetch-IsCapped :
    (s : Services) (now id : ℕ) (e : Option CacheEntry) (w : World)
    → IsCapped w
    → IsCapped (cached_or_fetch s now id e w).1
unfolding cached_or_fetch fetch tick
cached_or_fetch-IsCapped s now id none w h = remember-IsCapped now id (s.main_at w.calls) (tick w) h
cached_or_fetch-IsCapped s now id (some e) w h = elim (Bool-cases (ltb now e.expires_at)) [
  | inl live ↦ rw live h
  | inr old ↦ rw old (remember-IsCapped now id (s.main_at w.calls) (tick w) h)
]

-- Reading the status of a task keeps the cache within its soft limit, whether the status comes from
-- the cache or from the database.
pub load_main_snap-IsCapped :
    (s : Services) (force : Bool) (id : ℕ) (w : World)
    → IsCapped w
    → IsCapped (load_main_snap s force id w).1
unfolding load_main_snap fetch tick
load_main_snap-IsCapped s true id w h =
    remember-IsCapped (s.clock w.calls) id (s.main_at (suc w.calls)) (tick (tick w)) h
load_main_snap-IsCapped s false id w h =
    cached_or_fetch-IsCapped s (s.clock w.calls) id _ (tick w) h

first_where-delete {ℓ} :
    {A : Type ℓ} (test : A → Bool) (xs : List A) → first_where test (delete_where test xs) ≡ none
first_where-delete test [] = refl
first_where-delete test (x ∷ xs) = ground (arith, first_where-delete test xs)

-- After InvalidateMainCache a task's status is read from the database, as a forced refresh reads it.
pub load_main_snap-invalidate :
    (s : Services) (id : ℕ) (w : World)
    → load_main_snap s false id (invalidate id w) ≡ load_main_snap s true id (invalidate id w)
unfolding load_main_snap invalidate cached_or_fetch tick
load_main_snap-invalidate s id w = rw (first_where-delete (λ e. e.task_id == id) w.cache) refl
