-- ===== src/Lib.antt =====
-- django-tasks-redis: a Redis task backend for Django (package django_tasks_redis).
--
-- The program stores every task as a Redis hash. `enqueue` writes the hash and puts the task on a
-- stream of its queue and priority, or in a delayed set. Workers promote due tasks, receive messages
-- from the streams, claim a task with a Lua script, run its function and record how it ended; a
-- sweep takes over the messages of dead workers. Every status write also moves the task in a status
-- index, one sorted set per status, backend-wide and per queue. A supervisor keeps several worker
-- processes running.
--
-- Files and sources:
--   Utils, Utils/Keys          utils.py: the names of keys, the priority levels, and that keys differ
--   Task, TaskResult           the fields and values of a stored task, and django.tasks' TaskResult
--   Redis                      the server: a record of observations with the laws of the commands as
--                              redis.io documents them (Interface, Commands, Execute), and a server
--                              in memory that meets the laws (Memory)
--   Backend/Config, /Index     backends.py: __init__, _status_index_keys, _status_index_ttl,
--                              _status_index_cutoff, _index_status and _INDEX_STATUS
--   Backend/Scripts, /Claim    _CLAIM_TASK, _TRANSITION_TASK_STATUS, _INDEX_TASK, claim_task,
--                              transition_task_status, and races of claims (Claim/Race)
--   Backend/Finish, /Run       _record_error, mark_task_failed, run_task; /Data is _data_to_result
--   Backend/Queue, /Entry      enqueue, delete_task_data, reset_task_status, has_status_index, and
--                              stream_entry and requeue of brokers/streams.py
--   Backend/Counts, /Rebuild   _scan_status_counts, get_queue_stats, rebuild_status_index
--   Backend/Fetch, /Listing    get_result; iter_task_data, _fetch_task_batch, get_all_tasks, and
--                              delete_tasks of executor.py
--   Broker                     brokers/streams.py: promotion, _resolve, _take, ack, and what a sweep
--                              does to a message (_abandon, _release_interrupted_task)
--   Broker/Receive             queue_names, stream_keys, receive, _read
--   Broker/Recovery            claim_stale_messages, _claim_stale_in_stream, _remove_idle_consumers,
--                              remove_consumer
--   Executor                   executor.py: process_one_task, process_tasks, purge_completed_tasks
--   Interleaved                the atomic writes of all parts, in the order that the server sees them;
--                              Interleaved/Board is the abstract view of the statuses
--   Journey                    one task from enqueue by the broker to the claim of a worker
--   Worker                     management/commands/run_redis_tasks.py: _process_tasks,
--                              _run_broker_message, _exit_code
--   Supervisor                 supervisor.py: strip_option, combine_exit_codes, the slots
--   Supervisor/Supervised      _supervise, _apply_scaling, _check_failing
--   Supervisor/Stopping        _stop_workers, _kill_workers, _finish
--   Shutdown                   shutdown.py: GracefulShutdown on an explicit state of the process
--   Auth, Auth/Handlers        auth.py: the handlers and their loading, and the choice of handlers in
--                              backends.py
--   Views                      views.py: dispatch, and the endpoints that run and delete tasks
--   Examples                   each theorem at a concrete input, on the server in memory
--
-- How it is modelled:
--   - A store is of any type with a `Server` record. A script is one step, and so is a transaction. A
--     method that makes several calls is modelled with no other client between them, but for the task
--     function and the signal receivers, which may change the store in any way (`Environment`).
--     Races are sequences of scripts of several callers.
--   - A field holds the value that the program encodes into it (`Value`), not its JSON or ISO text. A
--     field of another kind than the program writes reads as blank.
--   - Instants are microseconds since the epoch, times to live whole seconds; the supervisor and
--     the wait of a receive count milliseconds on the monotonic clock.
--   - Exceptions are values of `Error`. The exception of a pipeline or of the connection is not
--     modelled. In a rebuild the scripts of a batch run one by one, so that on an unreadable hash the
--     model has run what the program still had queued.
--   - `enqueue` is modelled up to the task_enqueued signal.
--   - The loops of process_one_task and process_tasks run on fuel, one for each lost message and one
--     for each turn: as many turns as the limit are enough. The stop of the supervisor takes one for
--     each look at its processes. A sweep takes one for each page of pending entries, so one for each
--     id below the bound of the ids and one more are enough. The wait of a receive takes one for each
--     blocking read, and a receive that is not asked to wait takes none; how many reads a wait makes
--     is up to the server, as is the number of turns of the worker command.
--   - A receive and a sweep read the clock for delays once, at their start; the wait reads the
--     monotonic clock at every turn.
--   - In Interleaved no hash expires, and what a client read before a write is given with the write,
--     and may be out of date.
--   - What Python and Django provide to authentication is the record Platform: str.encode, str.upper,
--     int(), the digest and hmac.compare_digest, whose documented behaviour is the hypothesis
--     CompareDigest. XREADGROUP and the commands on consumer groups are the parameters Reader and
--     Group; the documented effects of XGROUP DELCONSUMER and of XPENDING with a range are the
--     hypotheses DeletesConsumer and RangesFrom.
--   - The handlers of signals are a table of the process, and os._exit is a code that is set once.
--
-- Not modelled: the settings of the Redis client, the reading of the status index,
-- get_distinct_task_values, fetch_task, the handle methods of the management commands, the views that
-- print a status or the statistics, and the admin (admin.py): they format what other parts compute;
-- logging, and the parts that only call Django.
pub mod Prelude
pub mod Task
pub mod TaskResult
pub mod Redis
pub mod Utils
pub mod Backend
pub mod Broker
pub mod Executor
pub mod Interleaved
pub mod Journey
pub mod Shutdown
pub mod Worker
pub mod Auth
pub mod Views
pub mod Supervisor
pub mod Examples
