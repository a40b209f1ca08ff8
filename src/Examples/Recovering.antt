-- ===== src/Examples/Recovering.antt =====
-- The theorems on receiving, on recovery and on listings, with a store in memory and a group of three
-- consumers.
use django_tasks_redis.Prelude.{
  ◌↔◌, false, ℕ, if◌then◌else◌, leb, Result, arith, Bool-cases, inl, inr, ◌≤◌, ◌≡◌, refl, true,
  false, not, some, List, [], ◌∷◌, codes, Text, text_eq, select, map, length,
}
use mathlib.Core.List.{Perm}
use django_tasks_redis.Prelude.Int.{pos}
use django_tasks_redis.Task.{Hash, ready, failed, text, task_id}
use django_tasks_redis.Redis.{Key, Server}
use django_tasks_redis.Redis.Memory.{Memory, memory, empty, apply}
use django_tasks_redis.Broker.{BrokerMessage}
use django_tasks_redis.Broker.Receive.{Reader, receive}
use django_tasks_redis.Broker.Receive.Limited.{Limited, receive_polls}
use django_tasks_redis.Broker.Recovery.{
  Group, Consumer, claim_stale_messages, max_claims_per_sweep, remove_idle_consumers,
}
use django_tasks_redis.Broker.Recovery.Ended.{RangesFrom, claim_stale_messages_ends}
use django_tasks_redis.Broker.Recovery.Consumers.{
  remove_idle_consumers-select, named_dead, DeletesConsumer,
}
use django_tasks_redis.Backend.Listing.{
  Filters, iter_task_data, stored_tasks, get_all_tasks, matches, take, drop,
}
use django_tasks_redis.Backend.Listing.Batched.{iter_task_data-stored}
use django_tasks_redis.Backend.Listing.Filtered.{get_all_tasks-page, newest_first, Passes}
use django_tasks_redis.Examples.{config, id, worker, stored, hash_of}

abbrev stream : Key
stream = codes "s"

-- A server that hands out two entries of the one stored task, whatever it is asked.
abbrev delivers : Reader Memory
delivers streams name read_id count block s = (
  some (λ k.
      record { message_id = 7; fields = (task_id, text id) ∷ [] }
      ∷ record { message_id = 8; fields = (task_id, text id) ∷ [] }
      ∷ []),
  s,
)

abbrev nobody_due : Memory → Key → List Text
nobody_due s key = []

receive_polls_example :
    (out : Result (List BrokerMessage) × Memory) × (receive memory config delivers worker nobody_due
        (codes "emails" ∷ [])
        1
        20
        0
        (λ s. 0)
        (λ s. false)
        0
        (stored ready (text []))
      ≡ some out)
    × Limited 1 out
receive_polls_example =
    receive_polls memory config delivers worker 1 20 (λ s. 0) (λ s. false) nobody_due
      (codes "emails" ∷ []) 0 (stored ready (text []))

-- A store in memory, with the consumers of one stream.
abbrev Grouped : Type 0
Grouped = Memory × List Consumer

abbrev grouped : Server Grouped
grouped = record {
  apply = λ c s. (apply c s.0, s.1);
  hgetall = λ s. memory.hgetall s.0;
  ttl = λ s. memory.ttl s.0;
  is_member = λ s. memory.is_member s.0;
  zscore = λ s. memory.zscore s.0;
  xrange = λ s. memory.xrange s.0;
  xpending = λ s. memory.xpending s.0;
  exists = λ s. memory.exists s.0;
  next_id = λ s. memory.next_id s.0;
  hgetall-apply = λ c s k. refl;
  ttl-apply = λ c s k. refl;
  is_member-apply = λ c s k m. refl;
  zscore-apply = λ c s k m. refl;
  xrange-apply = λ c s k. refl;
  xpending-apply = λ c s k. refl;
  exists-set = λ s j k. refl;
}

-- The sweeping worker, one that is dead, and one that holds a message.
abbrev consumers : List Consumer
consumers =
    record { name = worker; pending = 0; idle = 90000 }
    ∷ record { name = codes "w2"; pending = 0; idle = 90000 }
    ∷ record { name = codes "w3"; pending = 1; idle = 90000 }
    ∷ []

-- The message is of a task that is no longer stored.
abbrev group : Group Grouped
group = record {
  xinfo_consumers = λ s key. s.1;
  xgroup_delconsumer =
      λ key name s. (s.0, select (λ (c : Consumer). not (text_eq c.name name)) s.1);
  has_pending = λ s key. true;
  xpending_range = λ s key start count.
      if leb start 1
      then record { message_id = 1; time_since_delivered = 90000; times_delivered = 1 } ∷ []
      else [];
  xclaim = λ key name idle number s.
      (some (record { message_id = 1; fields = (task_id, text (codes "gone")) ∷ [] }), s);
}

documented : DeletesConsumer group
documented key name s = refl

ranges : RangesFrom group 2
ranges s key start = elim (Bool-cases (leb start 1)) [
  | inl early ↦ rw early (ground (arith, early))
  | inr late ↦ rw late refl
]

claim_stale_messages_ends_example :
    (m : ℕ) × (s' : Grouped) × (claim_stale_messages grouped config group worker 60000 5
        (codes "boom")
        20
        21
        3
        (stream ∷ [])
        (empty, consumers)
      ≡ some (m, s'))
    × (m ≤ max_claims_per_sweep)
claim_stale_messages_ends_example =
    claim_stale_messages_ends grouped config group worker 60000 5 (codes "boom") 20 21 2 ranges
      (stream ∷ []) (empty, consumers)

remove_idle_consumers-select_example :
    let (removed, after) =
      remove_idle_consumers grouped config group worker 60000 5
        (codes "boom")
        20
        21
        stream
        (empty, consumers) in
    after.1 ≡ select (λ c. not (named_dead worker 60000 consumers c)) consumers
remove_idle_consumers-select_example =
    remove_idle_consumers-select grouped config group worker 60000 5 (codes "boom") 20 21 documented
      stream (empty, consumers)

-- One of the two members of the index has expired.
abbrev members : List Text
members = codes "gone" ∷ id ∷ []

iter_task_data-stored_example :
    (iter_task_data memory config true 1 members (stored ready (text []))).0
    ≡ stored_tasks memory config members (stored ready (text []))
iter_task_data-stored_example =
    iter_task_data-stored memory config true 1 members (stored ready (text []))

abbrev filters : Filters
filters = record {
  queue = [];
  wanted_status = some failed;
  path = [];
  wanted_priority = some (pos 5);
}

abbrev listed : List (Text × Hash)
listed =
    (id, hash_of failed (text []))
    ∷ (codes "t2", hash_of ready (text []))
    ∷ (codes "t3", hash_of failed (text []))
    ∷ []

get_all_tasks-page_example :
    let (page, total) = get_all_tasks filters 1 1 listed in
    let all_stored = map (λ (item : Text × Hash). item.1) listed in
    ((h : Hash) → (matches filters h ≡ true) ↔ Passes filters h)
    × (tasks : List Hash) × Perm tasks (select (matches filters) all_stored)
    × (newest_first tasks ≡ true)
    × (page ≡ take 1 (drop 1 tasks))
    × (total ≡ length tasks)
get_all_tasks-page_example = get_all_tasks-page filters 1 1 listed
