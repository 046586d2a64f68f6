-- ===== src/Lib.antt =====
-- startlink sends push campaigns: a scheduler splits a campaign (a main task) into sub tasks,
-- workers claim the sub tasks and put one message for each user into a queue, and a gateway takes
-- the messages and sends each over one or several channels. This library models the rules of that
-- path, the database statements through which its processes meet, and the gateway.
--
-- Which file models what. Names are the source's, in snake_case; paths are from the root of the
-- repository.
--
--   Base: names passed on from the libraries, Boolean tests (Base.Tests), lists measured by
--     native numbers (Base.Lists), and a database table as the list of its rows with the SQL
--     statements on it (Base.Tables).
--   Domain: internal/domain. Status and Channel are status.go, Priority is priority.go, Costs is
--     channel_strategy.go, Schedule is schedule.go, Preference is preference.go. Text is the part
--     of Go's strings and strconv packages that they call, on the list of a string's characters.
--   Tasks: the main_tasks and sub_tasks of internal/adapter/repo/task.go. An Update is one UPDATE
--     statement, its WHERE clause and its SET clause; the repository's method runs it and may
--     fail. Main and Main.Counters hold those of main_tasks, Sub those of sub_tasks.
--     Main.Statements and Sub.Claims make data of the statements, so that a history of the system
--     is the list of the statements in the order in which the database runs them, from whatever
--     process.
--   Records: PushRepo of the same file, the delivery records and receipts. A method runs several
--     statements; between them other processes write, which is a function that the method is
--     given. Outcomes has ListFailedUserIDs and CountUserOutcomes, as if no write came between
--     their queries and none failed.
--   Gateway: internal/push/gateway.go with internal/domain/message.go. Services has the state
--     (the calls made, the records, the cache of the tasks, the calls of the senders), the
--     message and the services around the gateway; Snapshot, Checks, Attempts, Sending, Modes and
--     Handler have the methods, bottom up: Handle calls sendFallback, sendParallel,
--     sendAllSuccess or sendOne, which calls doSend.
--   Config.Retry: internal/config/retry.go, the retry policies of the channels and their delays.
--     Domain.RampUp: internal/domain/rampup.go.
--   Scheduler: internal/scheduler/splitter.go and worker.go. Sampling and Campaign are what they
--     use of internal/adapter/audience and internal/domain; Batch is what a page of the audience
--     becomes, Splitter one round of Split's loop and the loop, Split the rest of Split; Messages
--     and Worker are processSubTask, publishMsgs and a round of loopClaim, Runs is runSplit and
--     the rounds of loopSplit. World extends the aggregator's state by the sub tasks, and by logs
--     of the sub tasks that the process inserted, of the messages that it published and of the
--     pages that it asked for.
--   Campaigns: internal/app/campaign/service.go. Campaigns has the state and the calls of the
--     repositories and of Redis; Control is Cancel, Pause and Resume, Realigning is
--     realignCounters with SummarizeSubTasks, Retrying is Retry with buildRetryShards.
--   Callbacks: internal/app/callback. Verifier is verifier.go, on lists of bytes, with the store
--     of the nonces in Redis; Receipts is Handle of service.go with GetRecordByProviderRef, over
--     the records, the receipts and the campaigns.
--   Queues: internal/adapter/mq. Memory is memory.go, the steps of the goroutines around a
--     channel with one consumer; Router is Publish of priority_router.go.
--   Aggregator: internal/scheduler/aggregator.go. Steps has OnSubFinished, FinalizeStale and
--     finalizeIfDone over the table of the campaigns, the marks of the sub tasks and the
--     aggregator's own writes.
--   Examples: concrete campaigns, records and messages.
--
-- How they interact. The campaign service reopens, pauses and cancels what the others work on, by
-- the same statements. The splitter and the worker run the statements of Tasks.Main and
-- Tasks.Sub, the worker decodes the document that the splitter encoded and calls the aggregator.
-- The aggregator runs the statements of Tasks.Main on the campaigns. The gateway writes the
-- records with the definitions of Records and decides with those of Domain. What it asks of the
-- database, Redis, the limiter, the senders and the clock is a field of Services, answered by the
-- number of the call, here and in the aggregator, so that a theorem over all Services covers
-- every answer, failure and change of a status between two calls. A method whose calls the source
-- makes in turn takes the state through them; a method that returns early returns early here.
--
-- Bounds and loops. The loop of doSend recurses on the retries that are left, and the loops over
-- channels, rows and outcomes on their lists, so none has fuel; the loop of Split recurses on the
-- pages that are left of the source's own maxPages. The loop of buildRetryShards has as fuel the
-- number of the users, of which each round takes one at least, since the batch size is positive.
-- SortChannelsByCost selects as many times as there are channels, which its theorem uses to show
-- that all come out. Times are in nanoseconds, the windows in minutes of a day.
--
-- What is assumed. A statement that takes a row affects it, since each writes a new updated_at;
-- counts and costs are at least 0, statuses are the declared constants, as every writer in the
-- program keeps them; JSON columns are held decoded. The wiring is that of cmd/pusher: the
-- gateway has the repositories of tasks and records. The goroutines of sendParallel and
-- sendAllSuccess run one after the other, each with the answers that the services then give, and
-- the outcomes arrive in any order. Of an error its kind is kept and its wording is not.
--
-- What is not modelled. HMAC, SHA-256, the cut of a text after 512 bytes, the rendering of
-- templates, RouteCondition.Match and the floating-point token bucket are parameters: what they
-- compute does not change which checks are made. The week after which the counters and marks of a
-- campaign expire in Redis is left out. Tracing, logging and the Redis mark of a delivery write
-- nothing that this code reads back, save the mark, which a service answers. The webhook and the
-- inbox notification of an ended campaign are one notice. The cron rules and the campaign
-- schedule, the clients of the Redis and RocketMQ queues, the other services behind the HTTP
-- handlers, authentication, and the web console are outside.
pub mod Base
pub mod Config
pub mod Domain
pub mod Scheduler
pub mod Campaigns
pub mod Callbacks
pub mod Queues
pub mod Tasks
pub mod Records
pub mod Gateway
pub mod Aggregator
pub mod Examples
