-- ===== src/Queues/Memory.antt =====
-- internal/adapter/mq/memory.go: the queue of one process, with one consumer. A step is what one
-- goroutine does to the channel, or to the messages that the consumer took.
pub mod Kept
use startlink.Base.{
  ℕ, suc, ◌≤◌, ◌<◌, Bool, true, false, List, [], ◌∷◌, ◌++◌, length, ltb, leb, if◌then◌else◌, ◌≡◌,
}
use startlink.Gateway.Services.{PushMessage}

-- MemoryQueue: the channel with its capacity, and the consumer's semaphore. `held` are the messages that
-- were received and wait for the semaphore, `running` those in a handler. The rest is a log: what was
-- entered, what a handler ended well, and what is gone without that.
pub record MemoryQueue : Type 0 where
  pub capacity : ℕ
  pub concurrency : ℕ
  pub buffer : List PushMessage
  pub held : List PushMessage
  pub running : List PushMessage
  pub closed : Bool
  pub panicked : Bool
  pub entered : List PushMessage
  pub handled : List PushMessage
  pub gone : List PushMessage

-- NewMemoryQueue, and the concurrency of Consume; zero stands for the negative numbers too.
unfoldable pub new_memory_queue : ℕ → ℕ → MemoryQueue
new_memory_queue buffer batch = record {
  capacity = if leb buffer 0 then 1024 else buffer;
  concurrency = if leb batch 0 then 16 else batch;
  buffer = [];
  held = [];
  running = [];
  closed = false;
  panicked = false;
  entered = [];
  handled = [];
  gone = [];
}

-- A handler that fails sends its message to the channel: into the buffer, or nowhere if that is full,
-- and to a closed channel not at all, which is a panic.
unfoldable pub requeue : PushMessage → MemoryQueue → MemoryQueue
requeue m q =
    if q.closed
    then record q { panicked = true; gone = m ∷ q.gone }
    else (if ltb (length q.buffer) q.capacity
        then record q { buffer = q.buffer ++ (m ∷ []) }
        else record q { gone = m ∷ q.gone })

infix 40 ◌⟶◌
pub data ◌⟶◌ : MemoryQueue → MemoryQueue → Type 0 where
  -- Publish holds the lock and sends a message, where the channel is open and has room.
  send :
      {q : MemoryQueue} (m : PushMessage)
      → q.closed ≡ false
      → length q.buffer < q.capacity
      → q ⟶ record q { buffer = q.buffer ++ (m ∷ []); entered = m ∷ q.entered }
  -- The consumer receives the first message, one at a time.
  receive :
      {q : MemoryQueue} (m : PushMessage) (rest : List PushMessage)
      → q.buffer ≡ m ∷ rest
      → q.held ≡ []
      → q ⟶ record q { buffer = rest; held = m ∷ [] }
  -- The semaphore has room: a handler starts.
  start :
      {q : MemoryQueue} (m : PushMessage)
      → q.held ≡ m ∷ []
      → length q.running < q.concurrency
      → q ⟶ record q { held = []; running = m ∷ q.running }
  -- The context is done while the message waits.
  abandon :
      {q : MemoryQueue} (m : PushMessage)
      → q.held ≡ m ∷ []
      → q ⟶ record q { held = []; gone = m ∷ q.gone }
  -- A handler ends well.
  finish :
      {q : MemoryQueue} (m : PushMessage) (xs ys : List PushMessage)
      → q.running ≡ xs ++ (m ∷ ys)
      → q ⟶ record q { running = xs ++ ys; handled = m ∷ q.handled }
  -- A handler ends with an error.
  fail :
      {q : MemoryQueue} (m : PushMessage) (xs ys : List PushMessage)
      → q.running ≡ xs ++ (m ∷ ys)
      → q ⟶ requeue m (record q { running = xs ++ ys })
  -- Close
  close : {q : MemoryQueue} → q ⟶ record q { closed = true }

-- The queues that are reached from a new one.
pub data Reachable (buffer batch : ℕ) : MemoryQueue → Type 0 where
  new : Reachable buffer batch (new_memory_queue buffer batch)
  next : {q r : MemoryQueue} → Reachable buffer batch q → q ⟶ r → Reachable buffer batch r
