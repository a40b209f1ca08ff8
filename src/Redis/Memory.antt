-- ===== src/Redis/Memory.antt =====
-- A server in memory, which meets the laws: each observation is a table that the commands update.
use django_tasks_redis.Prelude.{
  ℕ, ◌+◌, refl, Bool, true, false, if◌then◌else◌, text_eq, Option, none, List, [], Text,
}
use django_tasks_redis.Task.{Hash}
use django_tasks_redis.Redis.Commands.{
  Key, Command, set, hset, sadd, zadd, xadd, delete, Message, Pending, hash_effect, ttl_effect,
  member_effect, score_effect, stream_effect, pending_effect,
}
use django_tasks_redis.Redis.Interface.{Server}

pub record Memory : Type 0 where
  hashes : Key → Option Hash
  ttls : Key → Option ℕ
  members : Key → Text → Bool
  scores : Key → Text → Option ℕ
  streams : Key → List Message
  pendings : Key → List Pending
  existing : Key → Bool
  next : ℕ

-- Keys are not dropped here when their last element goes.
abbrev exists_effect : Command → Key → Bool → Bool
exists_effect (set j) k b = if text_eq j k then true else b
exists_effect (hset j fs) k b = if text_eq j k then true else b
exists_effect (sadd j m) k b = if text_eq j k then true else b
exists_effect (zadd j m t) k b = if text_eq j k then true else b
exists_effect (xadd j fs) k b = if text_eq j k then true else b
exists_effect (delete j) k b = if text_eq j k then false else b
exists_effect _ k b = b

abbrev pub apply : Command → Memory → Memory
apply c s = record {
  hashes = λ k. hash_effect c k (s.hashes k);
  ttls = λ k. ttl_effect c k (s.ttls k);
  members = λ k m. member_effect c k m (s.members k m);
  scores = λ k m. score_effect c k m (s.scores k m);
  streams = λ k. stream_effect c k s.next (s.streams k);
  pendings = λ k. pending_effect c k (s.pendings k);
  existing = λ k. exists_effect c k (s.existing k);
  next = s.next + 1;
}

abbrev pub memory : Server Memory
memory = record {
  apply = apply;
  hgetall = λ s. s.hashes;
  ttl = λ s. s.ttls;
  is_member = λ s. s.members;
  zscore = λ s. s.scores;
  xrange = λ s. s.streams;
  xpending = λ s. s.pendings;
  exists = λ s. s.existing;
  next_id = λ s. s.next;
  hgetall-apply = λ c s k. refl;
  ttl-apply = λ c s k. refl;
  is_member-apply = λ c s k m. refl;
  zscore-apply = λ c s k m. refl;
  xrange-apply = λ c s k. refl;
  xpending-apply = λ c s k. refl;
  exists-set = λ s j k. refl;
}

abbrev pub empty : Memory
empty = record {
  hashes = λ k. none;
  ttls = λ k. none;
  members = λ k m. false;
  scores = λ k m. none;
  streams = λ k. [];
  pendings = λ k. [];
  existing = λ k. false;
  next = 0;
}
