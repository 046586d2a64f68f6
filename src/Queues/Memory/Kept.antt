-- ===== src/Queues/Memory/Kept.antt =====
-- internal/adapter/mq/memory.go: no message is lost track of, and the channel and the semaphore hold.
use startlink.Base.{◌+◌, ◌≤◌, Bool, false, not, ◌&&◌, length, count_where, ◌≡◌}
use startlink.Gateway.Services.{PushMessage}
use startlink.Queues.Memory.{MemoryQueue}

-- Whatever a test counts, it counts as often among the messages that were entered as in the channel, in
-- the consumer, among those handled and among those gone; the channel is within its capacity and the
-- handlers are within the semaphore; and a panic means that the queue was closed.
pub record IsKept (q : MemoryQueue) : Type 0 where
  pub kept :
      (p : PushMessage → Bool)
      → count_where p q.entered
        ≡ count_where p q.buffer
          + count_where p q.held
          + count_where p q.running
          + count_where p q.handled
          + count_where p q.gone
  pub room : length q.buffer ≤ q.capacity
  pub handlers : length q.running ≤ q.concurrency
  pub panics_closed : (q.panicked && not q.closed) ≡ false
