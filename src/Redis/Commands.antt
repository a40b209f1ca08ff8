-- ===== src/Redis/Commands.antt =====
-- The commands that the package sends, and what redis.io documents of their effect on each kind of key.
use django_tasks_redis.Prelude.{
  ℕ, Bool, true, false, not, ◌&&◌, Option, none, some, List, [], ◌∷◌, ◌++◌, Text, text_eq,
  if◌then◌else◌, select, ◌==◌,
}
use django_tasks_redis.Prelude.Int.{ℤ, pos, leb_ℤ}
use django_tasks_redis.Task.{Field, field_eq, Value, Hash}

abbrev pub Key : Type 0
Key = Text

-- The fields of a stream entry, and an entry under the id that the server gave it.
pub record Message : Type 0 where
  pub message_id : ℕ
  pub fields : List (Field × Value)

-- An entry delivered to a consumer and not yet acknowledged.
pub record Pending : Type 0 where
  pub message_id : ℕ
  pub consumer : Text
  pub delivered_at : ℕ
  pub times_delivered : ℕ

pub data Command : Type 0 where
  hset : Key → List (Field × Value) → Command
  expire : Key → ℕ → Command
  delete : Key → Command
  sadd : Key → Text → Command
  srem : Key → Text → Command
  zadd : Key → Text → ℕ → Command
  zrem : Key → Text → Command
  -- ZREMRANGEBYSCORE key -inf bound
  zremrangebyscore : Key → ℤ → Command
  xadd : Key → List (Field × Value) → Command
  xack : Key → ℕ → Command
  xdel : Key → ℕ → Command
  set : Key → Command
  -- XGROUP CREATE … MKSTREAM, where BUSYGROUP is let through
  xgroup_create : Key → Command

-- The last value given to a field wins.
abbrev pub hset_field : List (Field × Value) → Field → Option Value → Option Value
hset_field [] f o = o
hset_field ((g, v) ∷ fs) f o = hset_field fs f (if field_eq g f then some v else o)

abbrev pub no_fields : Hash
no_fields f = none

abbrev pub hash_or_empty : Option Hash → Hash
hash_or_empty none = no_fields
hash_or_empty (some h) = h

-- What a command does to the hash at `k`.
abbrev pub hash_effect : Command → Key → Option Hash → Option Hash
hash_effect (hset j fs) k h =
    if text_eq j k then some (λ f. hset_field fs f (hash_or_empty h f)) else h
hash_effect (delete j) k h = if text_eq j k then none else h
hash_effect _ k h = h

-- What it does to the time to live that EXPIRE last gave `k`.
abbrev pub ttl_effect : Command → Key → Option ℕ → Option ℕ
ttl_effect (expire j t) k o = if text_eq j k then some t else o
ttl_effect (delete j) k o = if text_eq j k then none else o
ttl_effect _ k o = o

-- What it does to the membership of `m` in the set at `k`.
abbrev pub member_effect : Command → Key → Text → Bool → Bool
member_effect (sadd j x) k m b = if text_eq j k && text_eq x m then true else b
member_effect (srem j x) k m b = if text_eq j k && text_eq x m then false else b
member_effect (delete j) k m b = if text_eq j k then false else b
member_effect _ k m b = b

abbrev pub drop_below : ℤ → Option ℕ → Option ℕ
drop_below bound none = none
drop_below bound (some t) = if leb_ℤ (pos t) bound then none else some t

-- What it does to the score of `m` in the sorted set at `k`.
abbrev pub score_effect : Command → Key → Text → Option ℕ → Option ℕ
score_effect (zadd j x t) k m o = if text_eq j k && text_eq x m then some t else o
score_effect (zrem j x) k m o = if text_eq j k && text_eq x m then none else o
score_effect (zremrangebyscore j bound) k m o = if text_eq j k then drop_below bound o else o
score_effect (delete j) k m o = if text_eq j k then none else o
score_effect _ k m o = o

abbrev pub without : ℕ → List Message → List Message
without i = select (λ (m : Message). not (m.message_id == i))

abbrev pub without_pending : ℕ → List Pending → List Pending
without_pending i = select (λ (p : Pending). not (p.message_id == i))

-- What it does to the entries of the stream at `k`; `i` is the id that the server gives next.
abbrev pub stream_effect : Command → Key → ℕ → List Message → List Message
stream_effect (xadd j fs) k i l =
    if text_eq j k then l ++ record { message_id = i; fields = fs } ∷ [] else l
stream_effect (xdel j d) k i l = if text_eq j k then without d l else l
stream_effect (delete j) k i l = if text_eq j k then [] else l
stream_effect _ k i l = l

-- What it does to the entries of the stream at `k` that the consumer group has pending.
abbrev pub pending_effect : Command → Key → List Pending → List Pending
pending_effect (xack j d) k l = if text_eq j k then without_pending d l else l
pending_effect (delete j) k l = if text_eq j k then [] else l
pending_effect _ k l = l
