-- ===== src/Queues.antt =====
-- internal/adapter/mq: the queue of one process (Memory, memory.go) and the router over two queues by
-- the priority of a message (Router, priority_router.go).
pub mod Memory
pub mod Router
