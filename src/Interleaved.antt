-- ===== src/Interleaved.antt =====
-- Many clients on one store: the atomic writes of the package (a Lua script or a transaction each, see
-- backends.py and brokers/streams.py), which reach the server in some order.
pub mod Board
mod Hashes
pub mod Refined
mod Scores
pub mod Preserved
pub mod Consistent
use django_tasks_redis.Prelude.{ℕ, Option, some, List, [], ◌∷◌, Text}
use django_tasks_redis.Prelude.Int.{ℤ, pos}
use django_tasks_redis.Task.{Field, Hash, Value, Status, TaskError, ready, running}
use django_tasks_redis.Redis.{Server, zadd, zremrangebyscore, execute}
use django_tasks_redis.Utils.{priority_to_level}
use django_tasks_redis.Backend.Config.{
  Config, index_key, result_key, delayed_key, stream_key, status_index_keys, status_index_cutoff,
}
use django_tasks_redis.Backend.Scripts.{claim_script, transition_script, index_task_script}
use django_tasks_redis.Backend.Finish.{record_error, record_success}
use django_tasks_redis.Backend.Queue.{Task, enqueue_pipeline, delete_pipeline, reset_pipeline}
use django_tasks_redis.Broker.{BrokerMessage, promote_script, ack}

-- One atomic write, with what its client read or was given beforehand. What was read may be out of
-- date by the time that the write reaches the server.
pub data Write : Type 0 where
  -- claim_task: task, queue, worker id, time, statuses to claim from
  claim : Text → Text → Text → ℕ → List Status → Write
  -- transition_task_status
  transition : Text → Text → Status → ℕ → List Status → Write
  -- rebuild_status_index: task, queue, the status read, since when, time
  index_task : Text → Text → Status → ℕ → ℕ → Write
  -- _record_error and the success of run_task, with the hash that the run read
  finish_failed : Text → Hash → TaskError → ℕ → Write
  finish_successful : Text → Hash → Text → ℕ → Write
  -- enqueue: id, arguments, keyword arguments, time
  submit : Task → Text → Text → Text → ℕ → Write
  -- delete_task_data, with the queue if the hash named one
  remove : Text → Option Text → Write
  -- reset_task_status
  reset : Text → Text → ℕ → Write
  -- the pruning of one index set ahead of a count
  prune_index : Option Text → Status → ℤ → Write
  -- promote_delayed_tasks: queue, task, level, the entry
  promote : Text → Text → Text → List (Field × Value) → Write
  -- _resolve of a message whose task is not due: queue, task, the time it is due
  postpone : Text → Text → ℕ → Write
  -- ack
  acknowledge : BrokerMessage → Write

module _ {S : Type 0} (r : Server S) (self : Config) where
  -- The reply that the client reads, 0 where it reads none, and the store after the write.
  unfoldable pub perform : Write → S → ℤ × S
  perform (claim id queue worker now allowed) s =
      claim_script r (result_key self id ∷ status_index_keys self (some queue)) now worker running
        id now (status_index_cutoff self running now) allowed s
  perform (transition id queue to_status now allowed) s =
      transition_script r (result_key self id ∷ status_index_keys self (some queue)) to_status id
        now (status_index_cutoff self to_status now) allowed s
  perform (index_task id queue read_status since now) s =
      index_task_script r (result_key self id ∷ status_index_keys self (some queue)) id read_status
        since (status_index_cutoff self read_status now) s
  perform (finish_failed id task_data error now) s =
      (pos 0, execute r (record_error self id task_data error now) s)
  perform (finish_successful id task_data value now) s =
      (pos 0, execute r (record_success self id task_data value now) s)
  perform (submit task id args kwargs now) s =
      (pos 0, execute r (enqueue_pipeline self task id args kwargs now) s)
  perform (remove id queue) s = (pos 0, execute r (delete_pipeline self id queue) s)
  perform (reset id queue now) s = (pos 0, execute r (reset_pipeline self id queue now) s)
  perform (prune_index queue st bound) s =
      (pos 0, r.apply (zremrangebyscore (index_key self queue st) bound) s)
  perform (promote queue id level fields) s = (
    pos 0,
    (promote_script r (delayed_key self queue) (result_key self id) (stream_key self queue level) id
        ready fields s).1,
  )
  perform (postpone queue id due) s = (pos 0, r.apply (zadd (delayed_key self queue) id due) s)
  perform (acknowledge message) s = (pos 0, execute r (ack message) s)

  -- The writes of all clients, in the order they reach the server, and their replies.
  unfoldable pub perform_all : List Write → S → List ℤ × S
  unfolding perform
  perform_all [] s = ([], s)
  perform_all (w ∷ ws) s =
      let (reply, s') = perform w s in
      let (replies, s'') = perform_all ws s' in (reply ∷ replies, s'')
