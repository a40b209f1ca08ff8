-- ===== src/Backend/Rebuild/Indexed.antt =====
-- A rebuild is safe beside running workers, and settles that the index is built.
use django_tasks_redis.Prelude.{
  ℕ, ◌≡◌, refl, true, false, none, some, List, Text, text_eq_refl, Result, ok, continue, raise, map,
  if◌then◌else◌,
}
use django_tasks_redis.Prelude.Int.{pos, negsuc}
use django_tasks_redis.Task.{
  Hash, Value, Status, text, ready, status, queue_name, has_status, queue_or_default,
}
use django_tasks_redis.Redis.{Server, Command, zrem, set, execute, zscore-execute, score_effects}
use django_tasks_redis.Utils.Keys.{text_eq-status_index_key}
use django_tasks_redis.Utils.{get_status_index_built_key}
use django_tasks_redis.Backend.Config.{Config, result_key, index_key, status_index_keys}
use django_tasks_redis.Backend.Index.{index_status}
use django_tasks_redis.Backend.Index.Effect.{index_status-eq-lua_index_status}
use django_tasks_redis.Backend.Index.State.{IndexedAs, index_status-IndexedAs}
use django_tasks_redis.Backend.Queue.{has_status_index}
use django_tasks_redis.Backend.Scripts.{index_task_script}
use django_tasks_redis.Backend.Rebuild.{index_read, rebuild_status_index}

module _ {S : Type 0} (r : Server S) (self : Config) (now : ℕ) (id : Text) (read : Hash) (q : Text)
    (st : Status) (since : ℕ) (queued : read queue_name ≡ some (text q)) (s : S) where
  index_read_lem :
      (h : Hash) (v : Value)
      → r.hgetall s (result_key self id) ≡ some h
      → h status ≡ some v
      → index_read r self now id read st since s ≡ (
          if has_status (some v) st
          then (pos 1, execute r (index_status self id q st since now) s)
          else (pos 0, s))
  unfolding index_read index_task_script queue_or_default
  index_read_lem h v stored current = rw (queued, stored, current, index_status-eq-lua_index_status)

  -- A task that is still in the status that a rebuild read it in is indexed under it, and under no
  -- other.
  pub index_read_current :
      (h : Hash) (v : Value)
      → r.hgetall s (result_key self id) ≡ some h
      → h status ≡ some v
      → has_status (some v) st ≡ true
      → let (outcome, after) = index_read r self now id read st since s in
        (outcome ≡ pos 1) × IndexedAs r self id q st since after
  index_read_current h v stored current same =
      rw (index_read_lem h v stored current, same)
        (refl, index_status-IndexedAs r self id q st since now s)

  -- A task that moved on since it was read is left to the transition that moved it.
  pub index_read_moved_on :
      (h : Hash) (v : Value)
      → r.hgetall s (result_key self id) ≡ some h
      → h status ≡ some v
      → has_status (some v) st ≡ false
      → index_read r self now id read st since s ≡ (pos 0, s)
  index_read_moved_on h v stored current other = rw (index_read_lem h v stored current, other)

  abbrev sweep : List Command
  sweep = map (λ key. zrem key id) (status_index_keys self (some q))

  swept :
      (tu : Status)
      → (score_effects sweep (index_key self none tu) id (r.zscore s (index_key self none tu) id)
          ≡ none)
        × (score_effects sweep
              (index_key self (some q) tu)
              id
              (r.zscore s (index_key self (some q) tu) id)
            ≡ none)
  unfolding status_index_keys
  swept ready =
      (simp (text_eq-status_index_key, text_eq_refl), simp (text_eq-status_index_key, text_eq_refl))
  swept _ =
      (simp (text_eq-status_index_key, text_eq_refl), simp (text_eq-status_index_key, text_eq_refl))

  -- A task whose hash is gone by the time that a rebuild indexes it is taken out of every set,
  -- backend-wide and of its queue.
  pub index_read_gone :
      r.hgetall s (result_key self id) ≡ none
      → let (outcome, after) = index_read r self now id read st since s in
        (outcome ≡ negsuc 0)
        × ((tu : Status)
            → (r.zscore after (index_key self none tu) id ≡ none)
              × (r.zscore after (index_key self (some q) tu) id ≡ none))
  unfolding index_read index_task_script queue_or_default status_index_keys
  index_read_gone gone =
      rw (gone, queued)
        (refl, λ tu. (rw zscore-execute (swept tu).0, rw zscore-execute (swept tu).1))

module _ {S : Type 0} (r : Server S) (self : Config) where
  settles_after :
      (x : Result ℕ) (s : S) (n : ℕ)
      → (continue x
          (λ indexed s'.
            (ok indexed, r.apply (set (get_status_index_built_key self.key_prefix self.alias)) s'))
          s).0
        ≡ ok n
      → (has_status_index r self false
          (continue x
            (λ indexed s'. (
              ok indexed,
              r.apply (set (get_status_index_built_key self.key_prefix self.alias)) s',
            ))
            s).1).0
        ≡ true
  unfolding has_status_index
  settles_after (ok indexed) s n e = rw (r.exists-set, text_eq_refl)
  settles_after (raise x) s n e = cc

  -- After a rebuild that ends, every process takes the index as built.
  pub rebuild_status_index_settles :
      (now : ℕ) (tasks : List (Text × Hash)) (s : S) (n : ℕ)
      → (rebuild_status_index r self now tasks s).0 ≡ ok n
      → (has_status_index r self false (rebuild_status_index r self now tasks s).1).0 ≡ true
  unfolding rebuild_status_index
  rebuild_status_index_settles now tasks s n e = settles_after _ _ n e
