-- ===== src/Lib.antt =====
-- Verification library of the Empower eNB agent: the library that connects a base station to the
-- 5G-EmPOWER controller. An agent has a list of triggers (agent/triggers.c), a scheduler thread that
-- performs tasks (agent/sched.c, agent/task.c) and a network thread that turns the messages of the
-- controller into triggers and tasks (agent/net.c). The scheduler answers by callbacks into the
-- wrapper, the code of the base station (include/emage.h), and by messages.
--
-- Files:
--   Base          tests on numbers, lists, integers, machine words
--   Emlist        agent/emlist.h, a copy of the Linux kernel's lists: its calls as parameters
--   Memory        malloc and free: how many blocks are held; which calls succeed is a parameter
--   Proto         emproto, the protocol library, which is not in the repository: parameters
--   Agent         agent/agent.h, agent/net.h, agent/sched.h, include/emage.h: the state, the events
--   Task          agent/task.c: task_alloc, task_free
--   Trigger       agent/triggers.c: trig_alloc to trig_free; Laws, Ids and Removal prove what they do
--   Sched/Time    ts_diff_to_ms and the test for a task's time
--   Sched/Outcome, Sched/Perform, Sched/Job
--                 sched_send_msg, sched_perform_*, sched_add_task, sched_perform_job
--   Sched/Consume sched_consume, one run over the queue
--   Sched/Service the abstract scheduler that serves one queue in order, and the proofs about it
--   Sched/Frame, Sched/Kept, Sched/Blocks, Sched/Credit, Sched/Users, Sched/Calls, Sched/Room
--                 what performing touches, the heap, the life of a task, the users of a slice, the
--                 callbacks that are called, the ids of the triggers, the sequence numbers
--                 (Sched/Sequence); Sched/Along and Sched/Finished carry a property through a run
--   Sched/Loop    sched_loop, sched_start, sched_stop; below it the end of the thread, and a report
--                 over its rounds
--   Wait          the time that the threads sleep, in sched_loop and net_loop
--   Net/Link      net_next_seq, net_not_connected, net_send
--   Net/Handlers  net_connected and the handler of each message
--   Net/Dispatch  net_process_message and the three switches below it
--   Net/Receive   the loops of net_loop that collect a message, and its rounds on one connection
--   Net/Connect   net_connect_to_controller
--   Net/Loop      net_loop from connection to connection
--   Net/Start     net_start, net_stop
--   Net/Blocks, Net/Process, Net/Triggers, Net/Untouched, Net/Room, Net/Distinct
--                 the heap under each message, what a request does to the triggers and their ids
--   Net/Every, Net/Framing, Net/Quiet, Net/Session, Net/Buffer, Net/Thread, Net/Reconnect
--                 how messages are collected from the bytes that come in, and the whole thread
--   Text          texts as lists of bytes, and what printf writes for a number
--   Log           agent/log.c: the log file and the lines in it; Log/Lines reads a line again
--   Core          agent/core.c: em_send, em_has_trigger, em_del_trigger, em_is_connected; Core/Api
--                 proves what they do to the triggers
--   Core/Library, Core/Start, Core/Stop
--                 the state of the library, core_initialize, core_release_agent, em_start,
--                 em_terminate_agent, em_stop
--   Core/Heap, Core/Ids, Core/Begin, Core/Defined, Core/Faults, Core/Race
--                 the heap under the agents, their ids, what em_start leaves and when it is defined,
--                 what is left open, and calls of em_start that overlap
--   Life          an agent's threads and the public API in any order, and what holds throughout
--   Threads       both threads in small steps, one critical section or one call at a time, with the
--                 other thread and the public API in between. Threads/Together puts the threads, the
--                 API and the stop of an agent together. Threads/Runs, Threads/Messages and
--                 Threads/Handled take the runs and the handlers of the files above apart into such
--                 steps; Threads/Heap is about the heap, Threads/Numbers about sequence numbers
--                 (Sched/Sequence is its part about the scheduler), Threads/Pointers about the
--                 pointers that are kept after a lock is released, Threads/Races about what can come
--                 in between, Threads/Release about core_release_agent: that the scheduler comes to
--                 its end (Placed, Ending, Bounded), and what is left then (Stopped)
--   Agents        all the agents of the library at once, each with its threads in small steps, and
--                 calls of the API that overlap, em_stop's test of the list among them (Agents/Calls):
--                 Agents/Running and Agents/Held prove what holds throughout, Agents/Begins and
--                 Agents/Ends take em_start and em_stop apart into such steps, counted in
--                 Agents/Course
--   Examples      a concrete platform and the theorems on it
--
-- A function keeps its name from the source; names with capitals are respelled (sched_to_ran_conf is
-- sched_to_RANconf). Conventions of the model:
--   * An operation takes the state and returns the new one. `World` is an agent, the heap, a counter
--     of questions put to the platform, and the calls made to the outside, the latest first.
--   * An `int` is its bit pattern, a number below 2 ^ 32, so -1 is 2 ^ 32 - 1; ids and sequence
--     numbers wrap. Where C leaves the overflow of the trigger id undefined, it wraps too.
--   * Pointers to messages are `Option (List ℕ)`; a copy has the first `size` bytes.
--   * A critical section is one step, since it holds the lock of what it uses. A run of the
--     scheduler takes, for each of its rounds, the batch of tasks that other threads add meanwhile.
--     In Sched/Consume, Net/Handlers and Life other threads' work on the triggers during a run or a
--     message is not interleaved; in Threads it is.
--   * In Threads a thread's local variables are in its position. Performing a task is one step there,
--     but for the lookup of a trigger and the taking of a sequence number, which can be steps of
--     their own. The network thread's steps for a message and for the Hello may come at any time and
--     with any contents, and after each measurement of a message the thread may go on in any way, as
--     after the last. A task that a stopped scheduler refuses is lost, and `lost` counts the blocks of
--     those tasks; but the Hello is freed.
--   * The fuel of `sched_consume` bounds the rounds of its loop; one more than the tasks, queued and
--     arriving, is enough.
--   * The network thread takes the answers of the system as a list: for each try to connect what
--     `socket`, gethostbyname and the calls of connect give, with a finite number of EALREADY, and
--     for a connection the bytes that the controller sends on it and what each call of recv meets.
--     Another thread may set `stop` between two calls. The rounds on one connection have
--     one more unit of fuel than there are answers, which is enough, since each uses one. `errno` is
--     changed by recv alone. Where the scheduler closes the socket, the next recv fails.
--   * The scheduler's thread takes a list of rounds: what arrives in each, and whether `stop` is set
--     in it. The loops of em_stop and of the sleep have fuel for each agent and each millisecond.
--   * `Balanced k` says that every block of the heap but `k` is one of a queued task or of a trigger;
--     `Owned k` that every block but `k` is an agent's.
--   * In Core a thread that is joined is asleep when `stop` is set, so what is left of it is its last
--     step; in Threads/Release it may be anywhere.
--     What the threads of a new agent do before it is in the list is a parameter, `work`; in Agents
--     they make their own steps from the time they are created.
--   * In Agents an agent stays in one list from its allocation to its release, and its place says how
--     far the calls that start and end it are. em_stop tests that the list is not empty and takes an
--     agent in two steps, with other steps in between; where it takes the head of an empty list for
--     an agent, the state is broken, and nothing is said of it. That em_start searches for its id
--     before is not part of a step there, and both threads of a new agent are created.
--   * `broken` records undefined behaviour of the library: a write to a log that is not open, past
--     the end of the address or with no room for its end, a 64-bit id that is printed as an `int`, or
--     the join of a thread that was never created. The message that core_send logs when an
--     allocation fails, and those that the threads log, are not followed.
--   * Which variables the code reads uninitialised is kept: they are parameters of the platform.
--
-- Not modelled: the lines that the threads and core_send log; the options that net_nodelay_socket
-- and net_noblock_socket set; in Core and Life the stop of a thread in the middle of a round, which
-- Threads/Release and Agents follow; the memory counters of EBUG_MEMORY; accesses of a field by two
-- threads at once, with no lock.
mod Base
pub mod Emlist
pub mod Memory
pub mod Trigger
pub mod Task
pub mod Proto
pub mod Agent
pub mod Net
pub mod Text
pub mod Log
pub mod Wait
pub mod Sched
pub mod Core
pub mod Life
pub mod Threads
pub mod Agents
mod Examples
