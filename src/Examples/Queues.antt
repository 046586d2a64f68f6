-- ===== src/Examples/Queues.antt =====
-- internal/adapter/mq/memory.go: a message whose handler fails after the queue is closed.
use startlink.Base.{true, false, [], ◌∷◌, none}
use startlink.Domain.Channel.{ChannelMode}
use startlink.Domain.Priority.{Priority}
use startlink.Gateway.Services.{PushMessage}
use startlink.Queues.Memory.{MemoryQueue}

abbrev message : PushMessage
message = record {
  main_task_id = 7;
  sub_task_id = 70;
  user_id = "u1";
  body = "hello";
  channel = "sms";
  channels = [];
  channel_mode = ChannelMode.single;
  biz_scene = "sale";
  topic = "";
  priority = Priority.normal;
  timezone = "";
  expire_at = none;
  max_fallback = 0;
  routes = [];
  costs = [];
  strict_vars = false;
  experiment_group = "";
}

-- The handler's send to the closed channel is a panic.
abbrev broken : MemoryQueue
broken = record {
  capacity = 1;
  concurrency = 2;
  buffer = [];
  held = [];
  running = [];
  closed = true;
  panicked = true;
  entered = message ∷ [];
  handled = [];
  gone = message ∷ [];
}
