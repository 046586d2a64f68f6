-- ===== src/Scheduler/World.antt =====
-- internal/scheduler: what the splitter and the worker are wired to, and the state they act on. The
-- aggregator's state is a part of it, since the worker calls the aggregator.
use startlink.Base.{ℕ, suc, String, Bool, List, Option, ℤ, Reply}
use startlink.Domain.Channel.{ChannelType}
use startlink.Domain.Priority.{Priority}
use startlink.Tasks.Rows.{MainTask, SubTask}
use startlink.Gateway.Services.{PushMessage}
use startlink.Scheduler.Campaign.{Campaign, AudiencePage}
use startlink.Scheduler.Batch.{ExperimentAssignment}
use startlink.Aggregator.Steps

-- Answers go by the number of the call, which the aggregator's calls count too. Before a statement
-- other processes write to main_tasks (`base.others`) and to sub_tasks (`other_subs`).
pub record Services : Type 0 where
  pub base : Steps.Services
  pub content : ℕ → Campaign  -- of the campaign with a key
  pub other_subs : ℕ → List SubTask → List SubTask
  pub new_id : ℕ → ℕ
  pub has_excluder : Bool
  pub exclude_at : ℕ → Option (List String)  -- ResolveExcludeUserIDs
  pub resolve_at : ℕ → String → Option AudiencePage  -- AudienceResolver.Resolve, by the page's token
  pub has_push_repo : Bool
  pub max_pages : ℕ
  pub max_users : ℕ
  pub has_limiter : Bool
  pub enforces : ChannelType → Bool  -- AdmissionMode(ch) == "enforce"
  pub is_over : ChannelType → Priority → ℕ → Bool  -- available QPS > 0, and the demand above it
  pub pauses : Bool  -- OverCapacityAction() == "pause"
  pub throttled_at : ℕ → Bool  -- back pressure is on, and the channel's use is high for long
  pub throttled_pace : ℤ  -- bp.DefaultPaceWhenThrottled
  pub slow_down : ℤ → ℤ  -- int(float64(pace) * bp.SlowdownFactor)
  pub cancelled_at : ℕ → Bool  -- the context is done
  pub publish_at : ℕ → Option ℕ  -- mq.Publish: `some n` is an error after n messages went out

pub record World : Type 0 where
  pub base : Steps.World
  pub subs : List SubTask
  pub assigned : List ExperimentAssignment
  pub created : List SubTask  -- the sub tasks that this process had inserted, in order
  pub published : List PushMessage  -- the messages that this process had published, in order
  pub resolves : ℕ  -- the pages that it asked for

abbrev pub calls_of : World → ℕ
calls_of w = w.base.calls

abbrev pub tick : World → World
tick w = record w { base = record w.base { calls = suc w.base.calls } }

abbrev pub now_at : Services → World → ℕ
now_at s w = s.base.clock (calls_of w)

-- tasks.GetMainTask
unfoldable pub load_row : Services → ℕ → World → Option MainTask × World
load_row s id w = let r = Steps.load_main s.base id w.base in (r.0, record w { base = r.1 })

-- A method of one statement on main_tasks.
unfoldable pub on_mains :
    Services → (Bool → ℕ → List MainTask → Reply Bool × List MainTask) → World → Reply Bool × World
on_mains s method w =
    let r =
      method (s.base.db_fails (calls_of w)) (now_at s w)
        (s.base.others (calls_of w) w.base.mains) in
    (r.0, record w { base = record w.base { mains = r.1; calls = suc (calls_of w) } })

-- A method of one statement on sub_tasks.
unfoldable pub on_subs {ℓ} :
    {A : Type ℓ}
    → Services
    → (Bool → ℕ → List SubTask → Reply A × List SubTask)
    → World
    → Reply A × World
on_subs s method w =
    let r = method (s.base.db_fails (calls_of w)) (now_at s w) (s.other_subs (calls_of w) w.subs) in
    (r.0, record (tick w) { subs = r.1 })

-- aggregator.OnSubFinished
unfoldable pub finish_sub : Services → ℕ → ℕ → World → Steps.Answer × World
finish_sub s main_id sub_id w =
    let r = Steps.on_sub_finished s.base main_id sub_id w.base in (r.0, record w { base = r.1 })
