-- ===== src/Campaigns.antt =====
-- internal/app/campaign/service.go: what the campaign service is wired to, the state that it acts on,
-- and its calls of the repositories. Before a statement other processes write to the tables. A call
-- that fails writes nothing.
pub mod Control
pub mod Realigning
pub mod Retrying
use startlink.Base.{
  ◌≡◌, refl, ℕ, suc, String, Bool, false, List, ◌∷◌, Option, none, some, ◌==◌, ◌&&◌, str_eq,
  if◌then◌else◌, count_where, delete_where, Reply, ok, err, Update,
}
use startlink.Domain.Status.{TaskStatus}
use startlink.Domain.Channel.{ChannelType}
use startlink.Tasks.Rows.{MainTask, SubTask}
use startlink.Tasks.Main.{get_main_task}
use startlink.Records.Rows.{PushRecord}
use startlink.Aggregator.Steps.{Mark}
use startlink.Scheduler.Campaign.{Campaign}

-- The key of a delivery in the dedup cache.
pub record DedupKey : Type 0 where
  pub main_task_id : ℕ
  pub user_id : String
  pub channel : ChannelType

-- The hash of a campaign's counters in Redis.
pub record SubDone : Type 0 where
  pub main_id : ℕ
  pub success : ℕ
  pub fail : ℕ
  pub done : ℕ

-- Answers go by the number of the call.
pub record Services : Type 0 where
  pub clock : ℕ → ℕ
  pub db_fails : ℕ → Bool
  pub cache_fails : ℕ → Bool
  pub other_mains : ℕ → List MainTask → List MainTask
  pub other_subs : ℕ → List SubTask → List SubTask
  pub other_records : ℕ → List PushRecord → List PushRecord
  pub new_id : ℕ → ℕ → ℕ  -- of the n-th row that a call inserts
  pub content : ℕ → Campaign  -- of the campaign with a key
  pub batch_size : ℕ
  pub has_push_repo : Bool
  pub has_cache : Bool
  pub has_webhook : ℕ → Bool  -- a notifier is there, with a URL for the campaign
  pub has_inbox : Bool

-- The tables, the dedup cache, and the counters and marks in Redis; the notices sent, latest first.
pub record World : Type 0 where
  pub calls : ℕ
  pub mains : List MainTask
  pub subs : List SubTask
  pub records : List PushRecord
  pub delivered : List DedupKey
  pub sub_done : List SubDone
  pub marks : List Mark
  pub webhooks : List (ℕ × TaskStatus)
  pub inbox : List (ℕ × TaskStatus)

pub data ServiceError : Type 0 where
  not_found invalid_state nothing_to_retry db_error cache_error : ServiceError

-- What a method returns: a value, or an error.
pub data Outcome {ℓ} (A : Type ℓ) : Type ℓ where
  done : A → Outcome A
  refused : ServiceError → Outcome A

-- `x, err := ...; if err != nil { return nil, err }`
abbrev pub and_then {ℓ κ} :
    {A : Type ℓ} {B : Type κ}
    → Outcome A × World
    → (A → World → Outcome B × World)
    → Outcome B × World
and_then (done a, w) next = next a w
and_then (refused e, w) next = (refused e, w)

abbrev pub tick : World → World
tick w = record w { calls = suc w.calls }

abbrev pub from_reply {ℓ} : {A : Type ℓ} → Reply A → Outcome A
from_reply (ok a) = done a
from_reply err = refused db_error

-- A query on sub_tasks.
unfoldable pub read_subs {ℓ} :
    {A : Type ℓ} → Services → (List SubTask → A) → World → Outcome A × World
read_subs s query w =
    let rows = s.other_subs w.calls w.subs in
    (
      (if s.db_fails w.calls then refused db_error else done (query rows)),
      record (tick w) { subs = rows },
    )

-- A query on push_records.
unfoldable pub read_records {ℓ} :
    {A : Type ℓ} → Services → (List PushRecord → A) → World → Outcome A × World
read_records s query w =
    let rows = s.other_records w.calls w.records in
    (
      (if s.db_fails w.calls then refused db_error else done (query rows)),
      record (tick w) { records = rows },
    )

-- A method of one statement on main_tasks.
unfoldable pub on_mains :
    Services
    → (Bool → ℕ → List MainTask → Reply Bool × List MainTask)
    → World
    → Outcome Bool × World
on_mains s method w =
    let r = method (s.db_fails w.calls) (s.clock w.calls) (s.other_mains w.calls w.mains) in
    (from_reply r.0, record (tick w) { mains = r.1 })

-- A method of one statement on sub_tasks that answers RowsAffected: the update that it runs says
-- which rows these are.
unfoldable pub on_subs :
    Services
    → (Bool → ℕ → List SubTask → Reply Bool × List SubTask)
    → (ℕ → Update SubTask)
    → World
    → Outcome ℕ × World
on_subs s method update w =
    let rows = s.other_subs w.calls w.subs in
    let r = method (s.db_fails w.calls) (s.clock w.calls) rows in
    (
      (if s.db_fails w.calls
          then refused db_error
          else done (count_where (update (s.clock w.calls)).hits rows)),
      record (tick w) { subs = r.1 },
    )

-- `none` is gorm.ErrRecordNotFound.
abbrev found : Option MainTask → Outcome MainTask
found none = refused not_found
found (some m) = done m

-- Get
unfoldable pub get : Services → ℕ → World → Outcome MainTask × World
get s id w =
    let rows = s.other_mains w.calls w.mains in
    (
      (if s.db_fails w.calls then refused db_error else found (get_main_task id rows)),
      record (tick w) { mains = rows },
    )

-- A key of the dedup cache.
abbrev pub is_key : ℕ → String → ChannelType → DedupKey → Bool
is_key main_id user_id ch k =
    k.main_task_id == main_id && str_eq k.user_id user_id && str_eq k.channel ch

-- cache.ClearDelivered, whose error is dropped.
unfoldable pub clear_delivered : Services → ℕ → String → ChannelType → World → World
clear_delivered s main_id user_id ch w = record (tick w) {
  delivered =
      if s.cache_fails w.calls
      then w.delivered
      else delete_where (is_key main_id user_id ch) w.delivered;
}

-- cache.SetSubDone: the counters are written, and the campaign's marks deleted.
unfoldable pub set_sub_done : Services → SubDone → World → Outcome (Unit {0}) × World
set_sub_done s counts w = if s.cache_fails w.calls then (refused cache_error, tick w) else (
  done tt,
  record (tick w) {
    sub_done = counts ∷ delete_where (λ c. c.main_id == counts.main_id) w.sub_done;
    marks = delete_where (λ m. m.main_id == counts.main_id) w.marks;
  },
)

-- No call of the database fails, and no other process writes.
abbrev pub quiet : Services → Services
quiet s = record s {
  db_fails = λ i. false;
  other_mains = λ i rows. rows;
  other_subs = λ i rows. rows;
  other_records = λ i rows. rows;
}

-- What a step keeps, it keeps after another.
pub and_then-keeps {ℓ κ μ} :
    {A : Type ℓ} {B : Type κ} {V : Type μ} (view : World → V) (r : Outcome A × World)
    (next : A → World → Outcome B × World)
    → ((a : A) (w : World) → view (next a w).1 ≡ view w)
    → view (and_then r next).1 ≡ view r.1
and_then-keeps view (done a, w) next h = h a w
and_then-keeps view (refused e, w) next h = refl

-- What follows from a value that is returned after a step follows from the value that the step gives
-- on the way.
pub and_then-done {ℓ κ μ} :
    {A : Type ℓ} {B : Type κ} (P : World → Type μ) (r : Outcome A × World)
    (next : A → World → Outcome B × World) (b : B)
    → ((a : A) → r.0 ≡ done a → (next a r.1).0 ≡ done b → P (next a r.1).1)
    → (and_then r next).0 ≡ done b
    → P (and_then r next).1
and_then-done P (done a, w) next b h k = h a refl k
and_then-done P (refused e, w) next b h k = cc
