-- ===== src/Worker/Bounded.antt =====
-- A worker with a limit stays within it (management/commands/run_redis_tasks.py).
use django_tasks_redis.Prelude.{
  ℕ, zero, suc, ◌+◌, ◌≤◌, ◌<◌, ◌≡◌, refl, sym, ◌∙◌, ◌&&◌, Option, none, some, List, [], ◌∷◌, Text,
  Result, ok, raise, ltb, leb, arith, Bool-cases, inl, inr,
}
use django_tasks_redis.TaskResult.{TaskResult}
use django_tasks_redis.Redis.{Server}
use django_tasks_redis.Backend.Config.{Config}
use django_tasks_redis.Backend.Run.{Environment}
use django_tasks_redis.Broker.{BrokerMessage}
use django_tasks_redis.Executor.{Surroundings}
use django_tasks_redis.Worker.{
  WorkerOptions, Clock, Counts, Next, return, continue, count_failure, give_up, go_on, counted,
  run_broker_message, process_messages, received_messages, turn, sweep, follow, process_loop,
  process_tasks,
}

-- A turn leaves room for one more task, unless it is the last one.
abbrev Roomy : {S : Type 0} → ℕ → Next S → Type 0
Roomy max_tasks (return counts s) = counts.processed ≤ max_tasks
Roomy max_tasks (continue counts s) = counts.processed < max_tasks

module _ {S : Type 0} (r : Server S) (self : Config) (env : Environment S)
    (outside : Surroundings S) (worker_id : Text) (clock : Clock S) (options : WorkerOptions) where
  give_up-Roomy :
      (counts : Counts) (s : S)
      → counts.processed < options.max_tasks
      → Roomy options.max_tasks (give_up r self env outside worker_id clock options counts s)
  unfolding give_up
  give_up-Roomy counts s room = elim (Bool-cases options.continuous) [
    | inl continuous ↦ elim (Bool-cases (clock.wait s).0) [
      | inl requested ↦ rw (continuous, requested) (omega (arith, room))
      | inr quiet ↦ rw (continuous, quiet) room
    ]
    | inr once ↦ rw once (omega (arith, room))
  ]

  counted-Roomy :
      (counts : Counts) (out : Result (Option TaskResult) × S)
      → counts.processed < options.max_tasks
      → Roomy options.max_tasks (counted r self env outside worker_id clock options counts out)
  unfolding counted
  counted-Roomy counts (raise e, s) room = give_up-Roomy (count_failure counts) s room
  counted-Roomy counts (ok none, s) room = room
  counted-Roomy counts (ok (some result), s) room =
      elim (Bool-cases (ltb 0 options.max_tasks && leb options.max_tasks (counts.processed + 1))) [
        | inl full ↦ rw full (omega (arith, room))
        | inr free ↦ rw free (ground (arith, room, free))
      ]

  go_on-Roomy :
      (again : Counts → S → Next S) (next : Next S)
      → Roomy options.max_tasks next
      → ((counts : Counts) (s : S)
          → counts.processed < options.max_tasks
          → Roomy options.max_tasks (again counts s))
      → Roomy options.max_tasks (go_on r self env outside worker_id clock options again next)
  unfolding go_on
  go_on-Roomy again (return counts s) room later = room
  go_on-Roomy again (continue counts s) room later = later counts s room

  process_messages-Roomy :
      (messages : List BrokerMessage) (counts : Counts) (s : S)
      → counts.processed < options.max_tasks
      → Roomy options.max_tasks
          (process_messages r self env outside worker_id clock options messages counts s)
  unfolding process_messages
  process_messages-Roomy [] counts s room = room
  process_messages-Roomy (message ∷ messages) counts s room =
      go_on-Roomy (process_messages r self env outside worker_id clock options messages)
        (counted r self env outside worker_id clock options counts
          (run_broker_message r self env outside worker_id clock options message s))
        (counted-Roomy counts _ room) (process_messages-Roomy messages)

  turn-Roomy :
      (counts : Counts) (reply : Result (List BrokerMessage) × S)
      → counts.processed < options.max_tasks
      → Roomy options.max_tasks
          (received_messages r self env outside worker_id clock options counts reply)
  unfolding received_messages
  turn-Roomy counts (raise e, s) room = give_up-Roomy counts s room
  turn-Roomy counts (ok [], s) room = elim (Bool-cases options.continuous) [
    | inl continuous ↦ elim (Bool-cases options.wait_seconds) [
      | inl waited ↦ rw (continuous, waited) room
      | inr polled ↦ elim (Bool-cases (clock.wait s).0) [
        | inl requested ↦ rw (continuous, polled, requested) (omega (arith, room))
        | inr quiet ↦ rw (continuous, polled, quiet) room
      ]
    ]
    | inr once ↦ rw once (omega (arith, room))
  ]
  turn-Roomy counts (ok (message ∷ messages), s) room =
      process_messages-Roomy (message ∷ messages) counts s room

  some_counts :
      (a b : Counts) (s t : S) → ◌≡◌ {A = Option (Counts × S)} (some (a, s)) (some (b, t)) → a ≡ b
  some_counts a b s t e = cc

  follow-bounded :
      (again : Counts → S → Option (Counts × S)) (next : Next S) (out : Counts) (s' : S)
      → Roomy options.max_tasks next
      → ((counts : Counts) (s : S)
          → counts.processed < options.max_tasks
          → again counts s ≡ some (out, s')
          → out.processed ≤ options.max_tasks)
      → follow r self env outside worker_id clock options again next ≡ some (out, s')
      → out.processed ≤ options.max_tasks
  unfolding follow
  follow-bounded again (return counts s) out s' room later e =
      rw (← some_counts counts out s s' e) room
  follow-bounded again (continue counts s) out s' room later e = later counts s room e

  process_loop-bounded :
      (fuel next_claim : ℕ) (counts out : Counts) (s s' : S)
      → counts.processed < options.max_tasks
      → process_loop r self env outside worker_id clock options fuel next_claim counts s
        ≡ some (out, s')
      → out.processed ≤ options.max_tasks
  unfolding process_loop turn
  process_loop-bounded zero next_claim counts out s s' room e = cc
  process_loop-bounded (suc fuel) next_claim counts out s s' room e =
      let (next_claim', swept) = sweep r self env outside worker_id clock options next_claim s in
      elim (Bool-cases (outside.is_set s)) [
        | inl stop ↦
            let same : ◌≡◌ {A = Option (Counts × S)} (some (counts, s)) (some (out, s')) =
              sym (rw stop refl) ∙ e in
            rw (← some_counts counts out s s' same) (omega (arith, room))
        | inr go ↦
            follow-bounded
              (process_loop r self env outside worker_id clock options fuel next_claim') _ out s'
              (turn-Roomy counts (outside.receive swept) room)
              (λ counts' s1 room' e'.
                process_loop-bounded fuel next_claim' counts' out s1 s' room' e')
              (sym (rw go refl) ∙ e)
      ]

  -- A worker with a positive limit that ends within the fuel has counted no more results than the
  -- limit; a run that raises gives none.
  pub process_tasks-bounded :
      (fuel : ℕ) (s s' : S) (out : Counts)
      → 0 < options.max_tasks
      → process_tasks r self env outside worker_id clock options fuel s ≡ some (out, s')
      → out.processed ≤ options.max_tasks
  unfolding process_tasks
  process_tasks-bounded fuel s s' out limited e =
      process_loop-bounded fuel _ (record { processed = 0; failed = 0 }) out s s' limited e
