-- ===== src/Backend/Index/Effect.antt =====
-- What a move in the status index does to every set of the index.
use django_tasks_redis.Prelude.{
  suc, ◌+◌, ◌-◌, List, [], ℕ, ◌≡◌, refl, Bool, true, false, Option, none, some, ◌∷◌, Text, text_eq,
  arith, if◌then◌else◌,
}
use django_tasks_redis.Prelude.Int.{ℤ}
use django_tasks_redis.Task.{Status, ready, Hash, status_eq, status_index_order}
use django_tasks_redis.Redis.{
  Key, Server, execute, zscore-execute, score_effects, hash_effects, hash_effects-append,
  member_effects, member_effects-append, leaves_streams, leaves_streams-append, ttl_effects,
  ttl_effects-append, score_effects-append, drop_below,
}
use django_tasks_redis.Utils.Keys.{text_eq-status_index_key}
use django_tasks_redis.Backend.Config.{
  Config, index_key, status_index_keys, result_key, status_index_cutoff,
}
use django_tasks_redis.Backend.Index.{
  index_from, index_entry, index_status, lua_add, lua_entry, lua_index_from, lua_index_status,
}

lua_entry-eq-index_entry :
    (key : Key) (task_id : Text) (other status : Status) (score : ℕ) (cutoff : Option ℤ)
    → lua_entry key task_id other status score cutoff
      ≡ index_entry key task_id other status score cutoff
unfolding lua_entry lua_add index_entry
lua_entry-eq-index_entry key task_id other status score none = refl
lua_entry-eq-index_entry key task_id other status score (some bound) = refl

-- KEYS of a script starts with the task hash and counts from 1.
lua_index_from-eq-index_from :
    (hash : Key) (keys : List Key) (position : ℕ) (statuses : List Status) (task_id : Text)
    (status : Status) (score : ℕ) (cutoff : Option ℤ)
    → lua_index_from (hash ∷ keys) (suc position) statuses task_id status score cutoff
      ≡ index_from keys position statuses task_id status score cutoff
unfolding lua_index_from index_from
lua_index_from-eq-index_from hash keys position [] task_id status score cutoff = refl
lua_index_from-eq-index_from hash keys position (other ∷ others) task_id status score cutoff =
    let wide : (1 + suc position) - 1 ≡ suc position = omega arith in
    let own : (5 + suc position) - 1 ≡ suc (4 + position) = omega arith in
    rw (
      wide,
      own,
      lua_entry-eq-index_entry,
      lua_entry-eq-index_entry,
      lua_index_from-eq-index_from hash keys (suc position) others task_id status score cutoff,
    )

-- For every task, status and time, the function that the scripts share sends the same commands as the
-- method that the transactions use, KEYS being the task hash and the sets.
pub index_status-eq-lua_index_status :
    (self : Config) (task_id queue_name : Text) (status : Status) (since now : ℕ)
    → lua_index_status
        (result_key self task_id ∷ status_index_keys self (some queue_name))
        task_id
        status
        since
        (status_index_cutoff self status now)
      ≡ index_status self task_id queue_name status since now
unfolding index_status lua_index_status
index_status-eq-lua_index_status self task_id queue_name status since now =
    lua_index_from-eq-index_from (result_key self task_id)
      (status_index_keys self (some queue_name)) 0 status_index_order task_id status since
      (status_index_cutoff self status now)

-- The set of a status, backend-wide or of a queue, is one that a task of `queue_name` belongs to.
abbrev pub covers : Option Text → Text → Bool
covers none queue_name = true
covers (some q) queue_name = text_eq queue_name q

abbrev pub drop_expired : Option ℤ → Option ℕ → Option ℕ
drop_expired none o = o
drop_expired (some bound) o = drop_below bound o

-- The score of `m` after `task_id` has moved to `status`: in the sets of `status` the task has the
-- new score and what has expired is gone; from the others the task is gone.
abbrev pub moved : Bool → Bool → Bool → ℕ → Option ℤ → Option ℕ → Option ℕ
moved false same self since cutoff o = o
moved true true self since cutoff o = if self then some since else drop_expired cutoff o
moved true false self since cutoff o = if self then none else o

score_effects-index_entry :
    (key : Key) (task_id : Text) (other status : Status) (since : ℕ) (cutoff : Option ℤ) (k : Key)
    (m : Text) (o : Option ℕ)
    → score_effects (index_entry key task_id other status since cutoff) k m o
      ≡ moved (text_eq key k) (status_eq other status) (text_eq task_id m) since cutoff o
unfolding index_entry
score_effects-index_entry key task_id other status since none k m o = ground arith
score_effects-index_entry key task_id other status since (some bound) k m o = ground arith

hash_effects-index_entry :
    (key : Key) (task_id : Text) (other status : Status) (since : ℕ) (cutoff : Option ℤ) (k : Key)
    (h : Option Hash)
    → hash_effects (index_entry key task_id other status since cutoff) k h ≡ h
unfolding index_entry
hash_effects-index_entry key task_id other status since none k h = ground arith
hash_effects-index_entry key task_id other status since (some bound) k h = ground arith

ttl_effects-index_entry :
    (key : Key) (task_id : Text) (other status : Status) (since : ℕ) (cutoff : Option ℤ) (k : Key)
    (o : Option ℕ)
    → ttl_effects (index_entry key task_id other status since cutoff) k o ≡ o
unfolding index_entry
ttl_effects-index_entry key task_id other status since none k o = ground arith
ttl_effects-index_entry key task_id other status since (some bound) k o = ground arith

ruleset entry_effects = (score_effects-append, score_effects-index_entry, text_eq-status_index_key)

module _ (self : Config) (task_id queue_name : Text) (since : ℕ) where
  score_effects-index_from :
      (cutoff : Option ℤ) (status : Status) (q : Option Text) (tu : Status) (m : Text)
      (o : Option ℕ)
      → score_effects
          (index_from
            (status_index_keys self (some queue_name))
            0
            status_index_order
            task_id
            status
            since
            cutoff)
          (index_key self q tu)
          m
          o
        ≡ moved (covers q queue_name) (status_eq tu status) (text_eq task_id m) since cutoff o
  unfolding index_from status_index_keys
  score_effects-index_from cutoff status none ready m o = simp entry_effects
  score_effects-index_from cutoff status none _ m o = simp entry_effects
  score_effects-index_from cutoff status (some q) ready m o = simp entry_effects
  score_effects-index_from cutoff status (some q) _ m o = simp entry_effects

-- The same for a whole move.
pub score_effects-index_status :
    (self : Config) (task_id queue_name : Text) (status : Status) (since now : ℕ) (q : Option Text)
    (tu : Status) (m : Text) (o : Option ℕ)
    → score_effects
        (index_status self task_id queue_name status since now)
        (index_key self q tu)
        m
        o
      ≡ moved
          (covers q queue_name)
          (status_eq tu status)
          (text_eq task_id m)
          since
          (status_index_cutoff self status now)
          o
unfolding index_status
score_effects-index_status self task_id queue_name status since now q tu m o =
    score_effects-index_from self task_id queue_name since (status_index_cutoff self status now)
      status q tu m o

module _ {S : Type 0} (r : Server S) (self : Config) where
  -- After `task_id` of a queue moved to `status`, in every set that is the queue's or backend-wide: the
  -- task has the new score in those of `status` and none in the others, and every other task keeps
  -- its score, but for those of `status` that are at or below the cutoff. A set of another queue is as
  -- it was.
  pub zscore-index_status :
      (task_id queue_name : Text) (status : Status) (since now : ℕ) (s : S) (q : Option Text)
      (tu : Status) (m : Text)
      → r.zscore
          (execute r (index_status self task_id queue_name status since now) s)
          (index_key self q tu)
          m
        ≡ moved
            (covers q queue_name)
            (status_eq tu status)
            (text_eq task_id m)
            since
            (status_index_cutoff self status now)
            (r.zscore s (index_key self q tu) m)
  zscore-index_status task_id queue_name status since now s q tu m =
      rw zscore-execute
        (score_effects-index_status self task_id queue_name status since now q tu m _)

module _ (self : Config) where
  -- The index does not touch a hash, nor its time to live.
  pub hash_effects-index_status :
      (task_id queue_name : Text) (status : Status) (since now : ℕ) (k : Key) (h : Option Hash)
      → hash_effects (index_status self task_id queue_name status since now) k h ≡ h
  unfolding index_status
  hash_effects-index_status task_id queue_name status since now k h =
      simp (hash_effects-append, hash_effects-index_entry)

  pub ttl_effects-index_status :
      (task_id queue_name : Text) (status : Status) (since now : ℕ) (k : Key) (o : Option ℕ)
      → ttl_effects (index_status self task_id queue_name status since now) k o ≡ o
  unfolding index_status
  ttl_effects-index_status task_id queue_name status since now k o =
      simp (ttl_effects-append, ttl_effects-index_entry)

  member_effects-index_entry :
      (key : Key) (task_id : Text) (other status : Status) (since : ℕ) (cutoff : Option ℤ) (k : Key)
      (m : Text) (b : Bool)
      → member_effects (index_entry key task_id other status since cutoff) k m b ≡ b
  unfolding index_entry
  member_effects-index_entry key task_id other status since none k m b = ground arith
  member_effects-index_entry key task_id other status since (some bound) k m b = ground arith

  pub member_effects-index_status :
      (task_id queue_name : Text) (status : Status) (since now : ℕ) (k : Key) (m : Text) (b : Bool)
      → member_effects (index_status self task_id queue_name status since now) k m b ≡ b
  unfolding index_status
  member_effects-index_status task_id queue_name status since now k m b =
      simp (member_effects-append, member_effects-index_entry)

  -- A key that is no set of the index keeps its members and their scores.
  pub score_effects-index_status_other :
      (task_id queue_name : Text) (status : Status) (since now : ℕ) (k : Key)
      → ((q : Option Text) (tu : Status) → text_eq (index_key self q tu) k ≡ false)
      → (m : Text) (o : Option ℕ)
      → score_effects (index_status self task_id queue_name status since now) k m o ≡ o
  unfolding index_status
  score_effects-index_status_other task_id queue_name status since now k apart m o =
      simp (score_effects-append, score_effects-index_entry, apart)

  leaves_streams-index_entry :
      (key : Key) (task_id : Text) (other status : Status) (since : ℕ) (cutoff : Option ℤ)
      → leaves_streams (index_entry key task_id other status since cutoff) ≡ true
  unfolding index_entry
  leaves_streams-index_entry key task_id other status since none = ground arith
  leaves_streams-index_entry key task_id other status since (some bound) = ground arith

  pub leaves_streams-index_status :
      (task_id queue_name : Text) (status : Status) (since now : ℕ)
      → leaves_streams (index_status self task_id queue_name status since now) ≡ true
  unfolding index_status
  leaves_streams-index_status task_id queue_name status since now =
      search (leaves_streams-append, leaves_streams-index_entry) depth 12
