-- ===== src/Tasks/Rows.antt =====
-- internal/domain/task.go: the columns of main_tasks and sub_tasks that the statements use.
use startlink.Base.{ℕ, String, Bool, List, Option, ◌==◌, any}
use startlink.Domain.Status.{TaskStatus}
use startlink.Domain.Channel.{ChannelType}

pub record MainTask : Type 0 where
  pub id : ℕ
  pub status : TaskStatus
  pub version : ℕ
  pub total_count : ℕ
  pub success_count : ℕ
  pub fail_count : ℕ
  pub sub_task_total : ℕ
  pub sub_task_done : ℕ
  pub split_owner : String  -- the empty string for NULL too
  pub split_lease_at : Option ℕ
  pub scheduled_at : Option ℕ
  pub started_at : Option ℕ
  pub finished_at : Option ℕ
  pub updated_at : ℕ

-- The document in sub_tasks.user_ids that the splitter writes and the worker reads (subPayload,
-- less the variables). A map is the list of its entries, the last put first; what Extra holds is
-- text here.
pub record SubPayload : Type 0 where
  pub user_ids : List String
  pub channels : List (String × List ChannelType)
  pub extras : List (String × List (String × String))
  pub locales : List (String × String)
  pub timezones : List (String × String)

-- A JSON column is held decoded, or as a text that is no such document.
pub data UserIds : Type 0 where
  document : SubPayload → UserIds
  malformed : UserIds

pub record SubTask : Type 0 where
  pub id : ℕ
  pub main_task_id : ℕ
  pub shard_index : ℕ
  pub user_ids : UserIds
  pub total_count : ℕ
  pub success_count : ℕ
  pub fail_count : ℕ
  pub status : TaskStatus
  pub retry_count : ℕ
  pub worker_id : String
  pub claimed_at : Option ℕ
  pub started_at : Option ℕ
  pub finished_at : Option ℕ
  pub last_error : String

-- A number for each status, to compare two statuses by.
abbrev pub task_code : TaskStatus → ℕ
task_code TaskStatus.draft = 0
task_code TaskStatus.pending = 1
task_code TaskStatus.running = 2
task_code TaskStatus.paused = 3
task_code TaskStatus.success = 4
task_code TaskStatus.partial = 5
task_code TaskStatus.failed = 6
task_code TaskStatus.cancelled = 7
task_code TaskStatus.retrying = 8

-- `status = ?`
abbrev pub task_eq : TaskStatus → TaskStatus → Bool
task_eq s t = task_code s == task_code t

-- `status IN ?`
abbrev pub is_in : List TaskStatus → TaskStatus → Bool
is_in list s = any (task_eq s) list
