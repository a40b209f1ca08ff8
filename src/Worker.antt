-- ===== src/Worker.antt =====
-- The worker command (management/commands/run_redis_tasks.py): its loop over messages, what it counts,
-- and its exit code. The run of one message is that of the executor.
pub mod Bounded
use django_tasks_redis.Prelude.{
  ℕ, zero, suc, ◌+◌, Bool, true, false, not, ◌&&◌, ◌||◌, Option, none, some, List, [], ◌∷◌, Text,
  ltb, leb, ◌==◌, Result, ok, raise, Exec, if◌then◌else◌,
}
use django_tasks_redis.Prelude.Int.{ℤ, pos, eqb_ℤ}
use django_tasks_redis.Task.{Status, successful, status_eq}
use django_tasks_redis.TaskResult.{TaskResult}
use django_tasks_redis.Redis.{Server}
use django_tasks_redis.Backend.Config.{Config}
use django_tasks_redis.Backend.Run.{Environment}
use django_tasks_redis.Broker.{BrokerMessage}
use django_tasks_redis.Executor.{Surroundings, run_message, acknowledged}

-- The options that the loop reads; `wait_seconds` tells whether the receive itself waits.
pub record WorkerOptions : Type 0 where
  pub continuous : Bool
  pub wait_seconds : Bool
  pub max_tasks : ℕ
  pub claim_interval : ℕ

-- What the loop reads beside the broker's receive: the clock, shutdown.wait(interval), which tells
-- whether a shutdown was requested, and the broker's sweep, the number of messages that it claimed.
pub record Clock (S : Type 0) : Type 0 where
  pub monotonic : S → ℕ
  pub wait : S → Bool × S
  pub claim_stale_messages : Exec S ℕ

-- `tasks_processed` and `self.tasks_failed`
pub record Counts : Type 0 where
  pub processed : ℕ
  pub failed : ℕ

-- How a turn of the loop ends: the loop returns, or goes on with the time of its next sweep.
pub data Next (S : Type 0) : Type 0 where
  return : Counts → S → Next S
  continue : Counts → S → Next S

abbrev pub count_result : Counts → TaskResult → Counts
count_result counts result = record {
  processed = counts.processed + 1;
  failed = if status_eq result.status successful then counts.failed else counts.failed + 1;
}

abbrev pub count_failure : Counts → Counts
count_failure counts = record counts { failed = counts.failed + 1 }

-- _exit_code
unfoldable pub exit_code : Counts → ℤ → ℤ → ℤ
exit_code counts empty_exit_code failed_exit_code =
    if not (counts.failed == 0) && not (eqb_ℤ failed_exit_code (pos 0))
    then failed_exit_code
    else if counts.processed == 0 && not (eqb_ℤ empty_exit_code (pos 0))
    then empty_exit_code
    else pos 0

module _ {S : Type 0} (r : Server S) (self : Config) (env : Environment S)
    (outside : Surroundings S) (worker_id : Text) (clock : Clock S) (options : WorkerOptions) where
  -- _run_broker_message: nack does nothing, so an exception leaves the message pending.
  unfoldable pub run_broker_message : BrokerMessage → Exec S (Option TaskResult)
  run_broker_message message s =
      acknowledged r self env outside worker_id message
        (run_message r self env outside worker_id message s)

  -- `if not continuous or shutdown.wait(interval)`
  give_up : Counts → S → Next S
  give_up counts s =
      let (requested, s') = clock.wait s in
      if options.continuous
      then if requested then return counts s' else continue counts s'
      else return counts s

  -- `again` is the rest of the messages.
  go_on : (Counts → S → Next S) → Next S → Next S
  go_on again (return counts s) = return counts s
  go_on again (continue counts s) = again counts s

  counted : Counts → Result (Option TaskResult) × S → Next S
  unfolding give_up
  counted counts (raise e, s) = give_up (count_failure counts) s
  counted counts (ok none, s) = continue counts s
  counted counts (ok (some result), s) =
      let counts' = count_result counts result in
      if ltb 0 options.max_tasks && leb options.max_tasks counts'.processed
      then return counts' s
      else continue counts' s

  -- `for message in messages`
  process_messages : List BrokerMessage → Counts → S → Next S
  unfolding counted go_on run_broker_message
  process_messages [] counts s = continue counts s
  process_messages (message ∷ messages) counts s =
      go_on (λ counts' s'. process_messages messages counts' s')
        (counted counts (run_broker_message message s))

  received_messages : Counts → Result (List BrokerMessage) × S → Next S
  unfolding give_up process_messages
  received_messages counts (raise e, s) = give_up counts s
  received_messages counts (ok [], s) =
      let (requested, s') = clock.wait s in
      if not options.continuous
      then return counts s
      else if options.wait_seconds
      then continue counts s
      else if requested
      then return counts s'
      else continue counts s'
  received_messages counts (ok (message ∷ messages), s) =
      process_messages (message ∷ messages) counts s

  -- _claim_stale_messages, if its time has come: the time of the next one. An exception is logged.
  sweep : ℕ → S → ℕ × S
  sweep next_claim s =
      let now = clock.monotonic s in
      if leb next_claim now
      then (now + options.claim_interval, (clock.claim_stale_messages s).1)
      else (next_claim, s)

  turn : Counts → S → Next S
  unfolding received_messages
  turn counts s = received_messages counts (outside.receive s)

  -- `again` is the rest of the loop.
  follow : (Counts → S → Option (Counts × S)) → Next S → Option (Counts × S)
  follow again (return counts s) = some (counts, s)
  follow again (continue counts s) = again counts s

  -- The loop of _process_tasks, none if the fuel, one for each turn, ran out.
  process_loop : ℕ → ℕ → Counts → S → Option (Counts × S)
  unfolding sweep turn follow
  process_loop zero next_claim counts s = none
  process_loop (suc fuel) next_claim counts s =
      let (next_claim', s') = sweep next_claim s in
      let again = λ (counts' : Counts) (s'' : S). process_loop fuel next_claim' counts' s'' in
      if outside.is_set s then some (counts, s) else follow again (turn counts s')

  -- _process_tasks
  unfoldable pub process_tasks : ℕ → S → Option (Counts × S)
  unfolding process_loop
  process_tasks fuel s =
      process_loop fuel (clock.monotonic s + options.claim_interval)
        (record { processed = 0; failed = 0 }) s
