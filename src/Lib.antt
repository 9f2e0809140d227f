-- ===== src/Lib.antt =====
-- The program is a server that copies messages between Telegram chats by tasks that its users
-- define. Its core logic is the Go package internal/engine; pkg/retry and pkg/workerpool hold
-- helpers that know nothing of Telegram. A task manager starts, pauses, stops and restarts the
-- runs of the tasks and keeps their counters and logs; a run asks the schedule engine for pull
-- tokens, waits for the task's daily window and quota, copies the history of a chat page by page,
-- drops messages that the cache of recent messages has seen, collects albums in the grouper,
-- skips or rewrites texts by the keyword policy, and looks up the messages that it has copied
-- before in the mapping cache. After its history a task takes the messages as they come, by
-- updates or by polls, through a queue of its own (the monitor), under the strategy that the
-- cache of strategies holds. internal/global counts what was done and keeps the recent logs.
--
-- This library models those parts file by file:
--
--  Scheduler.antt, Scheduler/Keys.antt, Scheduler/Engine.antt
--      internal/engine/scheduler.go, SchedulerEngine: the state of a task's slot
--      (taskScheduleState is ScheduleState) and one function for each method,
--      first on the state of one task (reserve_state, peek_state, ...), then on
--      the map of tasks (reserve_pull, peek_pull, ...). Proofs in
--      Scheduler/Within, Scheduler/Peek and Scheduler/Engine/.
--  Schedule.antt
--      internal/engine/scheduler.go, the rules: parseScheduleRules,
--      pickActiveSlot, nextSlotStart. Proofs in Schedule/.
--  Window.antt, Clock.antt
--      internal/engine/quota.go, the run window (parseRunWindow, contains,
--      nextStart) and the times of a day. Proofs in Window/ and Clock/Laws.
--  Dedup.antt
--      internal/engine/dedup.go, the cache of recently seen messages.
--  Grouper.antt
--      internal/engine/grouper.go, the albums and their timers.
--  Manager.antt, Manager/States.antt, Manager/Handlers.antt
--      internal/engine/dispatcher.go and the state updates of
--      internal/engine/worker.go: TaskManager and taskState.
--  Mapping.antt
--      internal/engine/msg_mapping_cache.go, a cache of least recent use.
--  History.antt, History/Data, History/Turns, History/Modes, History/Loops
--      internal/engine/history.go: the bounds and the estimate; the state of a
--      copy; what is done with a message, an album and a page; the three modes
--      (cloneHistoryOldToNew, cloneHistoryNewToOld,
--      catchUpNewMessagesNewToOld), which differ in what they pass over, ask for
--      and persist; the loops over the pages. Proofs: History/Commits (one
--      group), History/Page and History/Takes (one page), History/Steps and
--      History/Runs (the invariant of the loop), History/Copies,
--      History/Descent and History/CatchUp (the three copies).
--  Quota.antt
--      internal/engine/quota.go: taskQuota, waitForQuota, quotaAdd.
--  Realtime.antt, Realtime/Dispatch, Realtime/Poll, Realtime/Jobs
--      internal/engine/monitor.go: runtimeTask with its queue, its albums and its
--      cursor; dispatchMessageToRuntimeTask, composed of the deduplication
--      (Dedup.antt), the grouper (Grouper.antt) and the queue; pollOnce; what
--      the loop of run does with a job, composed of the plan of an album
--      (Filter.antt) and the scheduler's tokens (Scheduler.antt).
--      Realtime/Happenings has the steps that a task and several dispatches may
--      make in any order: the steps of a dispatch one by one, the timers, the
--      taking of a job, the calls of AddPending, a move of the cursor, the stop,
--      the end of the context, and DropTask of the grouper. Proofs:
--      Realtime/Replies and Realtime/Taken (a dispatch), Realtime/Waiters,
--      Realtime/Albums, Realtime/Closing, Realtime/Live, Realtime/Firing,
--      Realtime/Runs and Realtime/Late (the albums), Realtime/Counts (the
--      queue), Realtime/Spending and Realtime/Budget (a poll), Realtime/Ending
--      and Realtime/Done (a job).
--  Strategy.antt
--      internal/engine/strategy_cache.go, and normalizeTypeSet of
--      internal/engine/worker.go. Proofs in Strategy/.
--  Stats.antt, Stats/Ring, Stats/Hub
--      internal/global/stats.go: the counters, logRing, logHub, BroadcastLog;
--      ensureBizDay of internal/global/stats_persist.go. Stats/View reads the
--      ring as a list, and Stats/Pushes, Stats/Recent, Stats/Today and
--      Stats/Overlap hold the proofs.
--  Filter.antt
--      internal/engine/filter.go from fileSuffixAllowed on (PlanMediaGroup) and
--      the counting of quota units in internal/engine/quota.go.
--  Pool.antt
--      pkg/workerpool/pool.go: the steps of the pool's goroutines.
--  Keyword.antt, Keyword/Policy.antt
--      internal/engine/keyword_policy.go, keyword_apply.go and
--      CheckKeywordPolicy of filter.go.
--  Retry.antt
--      pkg/retry/backoff.go and pkg/retry/strategy.go.
--  Text.antt, Prelude.antt
--      Go's strings as lists of code points; integers, maps and lists.
--
-- State is passed explicitly: a method takes the state and returns the next one, with what it
-- answers and what it writes elsewhere (a key or a count to persist, batches to flush, a run to
-- start) as results. A mutex makes the locked part of a method one step, and sequences of calls
-- stand for their interleavings (Scheduler/Engine/Runs, Manager/Sane, Grouper/Runs, Mapping/Runs,
-- Realtime/Happenings). The reading of the clock is an argument. Methods on a nil receiver and
-- with a nil callback are not modelled. RestartTask is one step, although it unlocks between its
-- halves. A call that counts in internal/global is the sequence of its atomic operations, which
-- calls that overlap may mix (Stats/Overlap). A realtime task is looked at alone: the albums of
-- its ID are those of its run, and the timer of an album delivers to it.
--
-- Numbers: a Go int or int64 is an integer whose sums, differences and products are wrapped to 64
-- bits (Prelude/Int64); a uint64 that grows is taken modulo 2^64. A time is a count of
-- nanoseconds at a fixed offset from UTC, with 0 for the zero time, so that changes of summer
-- time are outside the model. Keys that the schedule engine builds as texts are modelled by what
-- they print.
--
-- Loops are structural over the list that they walk. The loops of the history copy and of the
-- wait for the quota run on fuel: History/Copies, History/Descent and History/CatchUp show how
-- many turns are enough for the greatest ID there is, and Quota/Ending when a wait is over. The
-- loop over a page has as many rounds as the page has messages, which is enough since each round
-- takes one at least; the pool is drained by as many steps as there is work left. A poll asks for
-- 20 pages at most, which is the bound of the code itself; the loops in which a job waits for the
-- scheduler have as many rounds as they are given readings of the clock, and where those are used
-- up the task's context ends. Two other loops count down instead: the retry loop by the attempts
-- that are left, which the strategy bounds, and the loop that shrinks the mapping cache by the
-- length of its list, which each turn shortens.
--
-- Code outside the repository is an argument: the answers of the Telegram client, the clock and
-- the database, as functions of the turn, in the history copy and the quota, the Telegram types
-- of media in the plan of an album, the Telegram message type and its ID in the grouper, the
-- Telegram runtimes and publishers in the task manager, what happens meanwhile, the choice of a
-- select and the results of sends in the monitor, the rows of the database in the cache of
-- strategies, lower case and regular expressions in the keyword policy, the cache of strategies
-- and the levels of logs, the context, the jitter and the sleep in the retry loop. JSON is taken
-- as it was decoded.
--
-- Not modelled: what calls the Telegram client, the database, ffmpeg, image codecs or the HTTP
-- framework, floats (the speed and percentage of a task), and log texts; the manifest names each
-- part. Of the monitor, the Telegram runtimes, the registration of realtime tasks and the refresh
-- of a task's strategy are left out. The comment filters, the retry of a send and the validation
-- of strategies in the HTTP interface are the next parts to add.
pub mod Clock
pub mod Dedup
pub mod Filter
pub mod Grouper
pub mod History
pub mod Keyword
pub mod Manager
pub mod Mapping
pub mod Pool
pub mod Prelude
pub mod Quota
pub mod Realtime
pub mod Retry
pub mod Schedule
pub mod Scheduler
pub mod Stats
pub mod Strategy
pub mod Text
pub mod Window
