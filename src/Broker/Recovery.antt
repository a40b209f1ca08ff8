-- ===== src/Broker/Recovery.antt =====
-- The recovery of messages that dead consumers hold, and the consumers themselves (brokers/streams.py,
-- claim_stale_messages, _claim_stale_in_stream, _remove_idle_consumers and remove_consumer).
pub mod Bounded
pub mod Consumers
pub mod Ended
use django_tasks_redis.Prelude.{
  ℕ, zero, suc, ◌+◌, ◌-◌, Bool, true, false, not, ◌&&◌, ◌||◌, Option, none, some, List, [], ◌∷◌,
  ◌++◌, Text, text_eq, ltb, leb, ◌==◌, length, if◌then◌else◌,
}
use django_tasks_redis.Redis.{Key, Server, Message}
use django_tasks_redis.Backend.Config.{Config}
use django_tasks_redis.Broker.{BrokerMessage, id_of, sweep_claimed}

-- An entry of XINFO CONSUMERS, its idle time in milliseconds.
pub record Consumer : Type 0 where
  pub name : Text
  pub pending : ℕ
  pub idle : ℕ

-- An entry of XPENDING with a range.
pub record PendingEntry : Type 0 where
  pub message_id : ℕ
  pub time_since_delivered : ℕ
  pub times_delivered : ℕ

-- The commands on the consumer group that recovery sends. A missing stream or group shows no consumers
-- and nothing pending.
pub record Group (S : Type 0) : Type 0 where
  pub xinfo_consumers : S → Key → List Consumer
  pub xgroup_delconsumer : Key → Text → S → S
  -- XPENDING without a range: whether anything is pending
  pub has_pending : S → Key → Bool
  -- from an id on, at most a number of entries
  pub xpending_range : S → Key → ℕ → ℕ → List PendingEntry
  -- stream, consumer, min-idle-time, id: the entry, none if it was not idle for that long
  pub xclaim : Key → Text → ℕ → ℕ → S → Option Message × S

abbrev pub max_claims_per_sweep : ℕ
max_claims_per_sweep = 100

abbrev pub pending_page_size : ℕ
pending_page_size = 100

-- next_message_id of the last entry of a page
abbrev pub next_start : List PendingEntry → ℕ → ℕ
next_start [] start = start
next_start (entry ∷ []) start = suc entry.message_id
next_start (entry ∷ entry' ∷ entries) start = next_start (entry' ∷ entries) start

module _ {S : Type 0} (r : Server S) (self : Config) (group : Group S) (worker_id : Text)
    (claim_timeout_ms max_deliveries : ℕ) (reason : Text) (moved_at recorded_at : ℕ) where
  -- What is made of a reply of XCLAIM: whether it counts as claimed.
  claimed_message : Key → PendingEntry → Option Message × S → Bool × S
  claimed_message stream entry (none, s) = (false, s)
  claimed_message stream entry (some message, s) =
      sweep_claimed r self
        (record {
          id = id_of message.fields;
          stream = stream;
          number = message.message_id;
          raw = message.fields;
        })
        entry.times_delivered max_deliveries reason moved_at recorded_at s

  claim_entry : Key → PendingEntry → S → Bool × S
  unfolding claimed_message
  claim_entry stream entry s =
      if ltb entry.time_since_delivered claim_timeout_ms
      then (false, s)
      else claimed_message stream entry
          (group.xclaim stream worker_id claim_timeout_ms entry.message_id s)

  -- `for entry in pending_range`, up to the limit
  claim_entries : Key → ℕ → List PendingEntry → ℕ → S → ℕ × S
  unfolding claim_entry
  claim_entries stream limit [] claimed_count s = (claimed_count, s)
  claim_entries stream limit (entry ∷ entries) claimed_count s =
      let (counts, s') = claim_entry stream entry s in
      let claimed_count' = if counts then claimed_count + 1 else claimed_count in
      let rest = claim_entries stream limit entries claimed_count' s' in
      if counts && leb limit claimed_count' then (claimed_count', s') else rest

  -- The loop over the pages, none if the fuel, one for each page, ran out.
  claim_pages : ℕ → Key → ℕ → ℕ → ℕ → S → Option (ℕ × S)
  unfolding claim_entries
  claim_pages zero stream limit start claimed_count s = none
  claim_pages (suc fuel) stream limit start claimed_count s =
      let page = group.xpending_range s stream start pending_page_size in
      let (claimed_count', s') = claim_entries stream limit page claimed_count s in
      let rest = claim_pages fuel stream limit (next_start page start) claimed_count' s' in
      if leb limit claimed_count
      then some (claimed_count, s)
      else if length page == 0
      then some (claimed_count, s)
      else if ltb (length page) pending_page_size
      then some (claimed_count', s')
      else rest

  -- _claim_stale_in_stream
  unfoldable pub claim_stale_in_stream : ℕ → Key → ℕ → S → Option (ℕ × S)
  unfolding claim_pages
  claim_stale_in_stream fuel stream limit s =
      let claimed = claim_pages fuel stream limit 0 0 s in
      if group.has_pending s stream then claimed else some (0, s)

  -- The loop over the consumers that XINFO gave.
  remove_each : Key → List Consumer → ℕ → S → ℕ × S
  remove_each stream [] removed s = (removed, s)
  remove_each stream (consumer ∷ consumers) removed s =
      if text_eq consumer.name worker_id
        || not (consumer.pending == 0)
        || ltb consumer.idle claim_timeout_ms
      then remove_each stream consumers removed s
      else remove_each stream consumers (removed + 1)
          (group.xgroup_delconsumer stream consumer.name s)

  -- _remove_idle_consumers
  unfoldable pub remove_idle_consumers : Key → S → ℕ × S
  unfolding remove_each
  remove_idle_consumers stream s = remove_each stream (group.xinfo_consumers s stream) 0 s

  remove_idle_everywhere : List Key → S → S
  remove_idle_everywhere [] s = s
  remove_idle_everywhere (stream ∷ streams) s =
      remove_idle_everywhere streams (remove_idle_consumers stream s).1

  -- The rest of the streams, unless one ran out of fuel or the sweep is full.
  claim_next : (ℕ → S → Option (Bool × ℕ × S)) → ℕ → Option (ℕ × S) → Option (Bool × ℕ × S)
  claim_next rest claimed_count none = none
  claim_next rest claimed_count (some (n, s)) =
      let total = claimed_count + n in
      let later = rest total s in
      if leb max_claims_per_sweep total then some (true, total, s) else later

  -- The first loop of claim_stale_messages: whether it stopped at the limit.
  claim_streams : ℕ → List Key → ℕ → S → Option (Bool × ℕ × S)
  unfolding claim_next
  claim_streams fuel [] claimed_count s = some (false, claimed_count, s)
  claim_streams fuel (stream ∷ streams) claimed_count s =
      claim_next (λ n s'. claim_streams fuel streams n s') claimed_count
        (claim_stale_in_stream fuel stream (max_claims_per_sweep - claimed_count) s)

  after_claims : List Key → Option (Bool × ℕ × S) → Option (ℕ × S)
  after_claims streams none = none
  after_claims streams (some (true, n, s)) = some (n, s)
  after_claims streams (some (false, n, s)) = some (n, remove_idle_everywhere streams s)

  -- claim_stale_messages, over stream_keys()
  unfoldable pub claim_stale_messages : ℕ → List Key → S → Option (ℕ × S)
  unfolding claim_streams after_claims remove_idle_everywhere
  claim_stale_messages fuel streams s = after_claims streams (claim_streams fuel streams 0 s)

-- remove_consumer on one stream: the first consumer of the name, if nothing is pending for it.
module _ {S : Type 0} (group : Group S) (worker_id : Text) where
  remove_named : Key → List Consumer → S → ℕ × S
  remove_named stream [] s = (0, s)
  remove_named stream (consumer ∷ consumers) s =
      if not (text_eq consumer.name worker_id)
      then remove_named stream consumers s
      else if not (consumer.pending == 0)
      then (0, s)
      else (1, group.xgroup_delconsumer stream worker_id s)

  unfoldable pub remove_consumer : List Key → ℕ → S → ℕ × S
  unfolding remove_named
  remove_consumer [] removed s = (removed, s)
  remove_consumer (stream ∷ streams) removed s =
      let (n, s') = remove_named stream (group.xinfo_consumers s stream) s in
      remove_consumer streams (removed + n) s'
