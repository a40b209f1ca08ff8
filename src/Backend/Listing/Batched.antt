-- ===== src/Backend/Listing/Batched.antt =====
-- Batches do not show: a walk yields every stored task once, whatever the batch size (backends.py,
-- iter_task_data).
use mathlib.Core.List.{append_assoc, append-nil}
use django_tasks_redis.Prelude.{
  ℕ, ◌≡◌, refl, sym, ap, ◌∙◌, Bool, true, false, Option, List, [], ◌∷◌, ◌++◌, Text, leb, length,
  map, Bool-cases, inl, inr,
}
use django_tasks_redis.Task.{Hash}
use django_tasks_redis.Redis.{Key, Server, srem, hash_effects, hgetall-execute}
use django_tasks_redis.Backend.Config.{Config, result_key, results_index_key}
use django_tasks_redis.Backend.Listing.{
  found, stored_tasks, expired_ids, fetch_task_batch, iter_from, iter_task_data,
}

module _ {S : Type 0} (r : Server S) (self : Config) where
  hash_effects-srem_each :
      (task_ids : List Text) (k : Key) (h : Option Hash)
      → hash_effects (map (λ id. srem (results_index_key self) id) task_ids) k h ≡ h
  hash_effects-srem_each [] k h = refl
  hash_effects-srem_each (id ∷ task_ids) k h = hash_effects-srem_each task_ids k h

  stored_tasks-append :
      (ids others : List Text) (s : S)
      → stored_tasks r self (ids ++ others) s
        ≡ stored_tasks r self ids s ++ stored_tasks r self others s
  unfolding stored_tasks
  stored_tasks-append [] others s = refl
  stored_tasks-append (id ∷ ids) others s =
      ap (λ tasks. found id (r.hgetall s (result_key self id)) ++ tasks)
        (stored_tasks-append ids others s)
      ∙ sym (append_assoc (found id (r.hgetall s (result_key self id))) _ _)

  -- Dropping index members leaves every hash alone.
  stored_tasks-same :
      (ids : List Text) (s s' : S)
      → ((k : Key) → r.hgetall s' k ≡ r.hgetall s k)
      → stored_tasks r self ids s' ≡ stored_tasks r self ids s
  unfolding stored_tasks
  stored_tasks-same [] s s' same = refl
  stored_tasks-same (id ∷ ids) s s' same = rw (same, stored_tasks-same ids s s' same)

  hgetall-fetch :
      (cleanup : Bool) (ids : List Text) (s : S) (k : Key)
      → r.hgetall (fetch_task_batch r self cleanup ids s).1 k ≡ r.hgetall s k
  unfolding fetch_task_batch
  hgetall-fetch true ids s k =
      rw (hgetall-execute, hash_effects-srem_each (expired_ids r self ids s))
  hgetall-fetch false ids s k = refl

  iter_from-stored :
      (cleanup : Bool) (batch_size : ℕ) (task_ids batch : List Text) (s : S)
      → (iter_from r self cleanup batch_size task_ids batch s).0
        ≡ stored_tasks r self (batch ++ task_ids) s
  unfolding iter_from fetch_task_batch
  iter_from-stored cleanup batch_size [] [] s = unfold stored_tasks in refl
  iter_from-stored cleanup batch_size [] (id ∷ batch) s =
      ap (λ ids. stored_tasks r self (id ∷ ids) s) (sym (append-nil batch))
  iter_from-stored cleanup batch_size (id ∷ task_ids) batch s =
      let full = batch ++ id ∷ [] in
      let s' = (fetch_task_batch r self cleanup full s).1 in
      let whole = ap (λ ids. stored_tasks r self ids s) (append_assoc batch (id ∷ []) task_ids) in
      elim (Bool-cases (leb batch_size (length full))) [
        | inl fetched ↦ rw fetched (
            ap (λ tasks. stored_tasks r self full s ++ tasks)
              (iter_from-stored cleanup batch_size task_ids [] s'
                ∙ stored_tasks-same task_ids s s' (hgetall-fetch cleanup full s))
            ∙ sym (stored_tasks-append full task_ids s)
            ∙ whole)
        | inr waiting ↦ rw waiting (iter_from-stored cleanup batch_size task_ids full s ∙ whole)
      ]

  -- Whatever the batch size, and whether expired members are dropped on the way or not, a walk yields the
  -- members whose hash is stored, in the order of the scan, each with the hash stored at the start.
  pub iter_task_data-stored :
      (cleanup : Bool) (batch_size : ℕ) (task_ids : List Text) (s : S)
      → (iter_task_data r self cleanup batch_size task_ids s).0 ≡ stored_tasks r self task_ids s
  unfolding iter_task_data
  iter_task_data-stored cleanup batch_size task_ids s =
      iter_from-stored cleanup batch_size task_ids [] s
