-- ===== src/Redis/Interface.antt =====
-- A Redis server as a parameter of the model: its stores, what a client observes, and the laws of the
-- commands.
use django_tasks_redis.Prelude.{
  ℕ, ◌≡◌, Bool, true, text_eq, if◌then◌else◌, Option, List, [], ◌∷◌, Text,
}
use django_tasks_redis.Task.{Field, Value, Hash}
use django_tasks_redis.Redis.Commands.{
  Key, Command, set, Message, Pending, hash_or_empty, hash_effect, ttl_effect, member_effect,
  score_effect, stream_effect, pending_effect,
}

-- A server: its stores, what a client can observe of one, and the effect of a command on it.
-- The laws are the documented behaviour of the commands.
pub record Server (S : Type 0) : Type 0 where
  pub apply : Command → S → S
  -- HGETALL, and none for no such key
  pub hgetall : S → Key → Option Hash
  -- the seconds of the last EXPIRE, none for no time to live
  pub ttl : S → Key → Option ℕ
  -- SISMEMBER
  pub is_member : S → Key → Text → Bool
  -- ZSCORE
  pub zscore : S → Key → Text → Option ℕ
  -- XRANGE key - +
  pub xrange : S → Key → List Message
  -- XPENDING of the consumer group
  pub xpending : S → Key → List Pending
  -- EXISTS
  pub exists : S → Key → Bool
  -- the id that the next XADD gives
  pub next_id : S → ℕ
  pub hgetall-apply :
      (c : Command) (s : S) (k : Key) → hgetall (apply c s) k ≡ hash_effect c k (hgetall s k)
  pub ttl-apply : (c : Command) (s : S) (k : Key) → ttl (apply c s) k ≡ ttl_effect c k (ttl s k)
  pub is_member-apply :
      (c : Command) (s : S) (k : Key) (m : Text)
      → is_member (apply c s) k m ≡ member_effect c k m (is_member s k m)
  pub zscore-apply :
      (c : Command) (s : S) (k : Key) (m : Text)
      → zscore (apply c s) k m ≡ score_effect c k m (zscore s k m)
  pub xrange-apply :
      (c : Command) (s : S) (k : Key)
      → xrange (apply c s) k ≡ stream_effect c k (next_id s) (xrange s k)
  pub xpending-apply :
      (c : Command) (s : S) (k : Key) → xpending (apply c s) k ≡ pending_effect c k (xpending s k)
  pub exists-set :
      (s : S) (j k : Key) → exists (apply (set j) s) k ≡ (if text_eq j k then true else exists s k)

-- A pipeline in one transaction, and the observations that follow it.
module _ {S : Type 0} (r : Server S) where
  unfoldable pub execute : List Command → S → S
  execute [] s = s
  execute (c ∷ cs) s = execute cs (r.apply c s)

  -- HGET, none for a missing key or field
  abbrev pub hget : S → Key → Field → Option Value
  hget s k f = hash_or_empty (r.hgetall s k) f
