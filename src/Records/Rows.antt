-- ===== src/Records/Rows.antt =====
-- internal/domain/task.go: the columns of push_records and push_receipts.
use startlink.Base.{ℕ, String, Bool, ◌&&◌, Option, some, ◌==◌, str_eq, if◌then◌else◌}
use startlink.Domain.Status.{PushStatus, ReceiptEvent}
use startlink.Domain.Channel.{ChannelType}

pub record PushRecord : Type 0 where
  pub id : ℕ
  pub main_task_id : ℕ
  pub sub_task_id : ℕ
  pub user_id : String
  pub channel : ChannelType
  pub content : String
  pub status : PushStatus
  pub provider : String
  pub provider_id : Option String
  pub error_msg : String
  pub is_test : Bool
  pub experiment_group : String
  pub sent_at : Option ℕ
  pub updated_at : ℕ

pub record PushReceipt : Type 0 where
  pub push_record_id : ℕ
  pub event : ReceiptEvent
  pub raw_payload : String

-- The unique key uk_task_user_channel.
abbrev pub has_key : ℕ → String → ChannelType → PushRecord → Bool
has_key main_task_id user_id channel r =
    r.main_task_id == main_task_id && str_eq r.user_id user_id && str_eq r.channel channel

-- `if s != "" { ... = s }`
abbrev pub unless_empty : String → String → String
unless_empty new old = if str_eq new "" then old else new

abbrev pub unless_empty_id : String → Option String → Option String
unless_empty_id new old = if str_eq new "" then old else some new
