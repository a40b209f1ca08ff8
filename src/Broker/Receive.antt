-- ===== src/Broker/Receive.antt =====
-- Receiving messages (brokers/streams.py, receive and _read): the consumer's own messages, then new
-- ones stream by stream, then a wait on all streams.
pub mod Limited
use django_tasks_redis.Prelude.{
  ℕ, zero, suc, codes, other_error, ◌+◌, ◌-◌, ◌*◌, min, max, Bool, true, false, not, ◌&&◌, ◌||◌,
  Option, none, some, List, [], ◌∷◌, ◌++◌, Text, ltb, leb, ◌==◌, length, map, Result, ok, raise,
  Exec, ◌>>=◌, pure, if◌then◌else◌,
}
use django_tasks_redis.Redis.{Key, Server, Message, xgroup_create}
use django_tasks_redis.Utils.{high, normal, low}
use django_tasks_redis.Backend.Config.{Config, stream_key}
use django_tasks_redis.Backend.Run.{Done}
use django_tasks_redis.Broker.{BrokerMessage, take_all, promote_delayed_tasks}

-- queue_names: the queue that is asked for, else those of the backend, else the default one.
unfoldable pub queue_names : List Text → Option Text → List Text → List Text
queue_names queues none default = elim queues [ [] ↦ default | q ∷ qs ↦ q ∷ qs ]
queue_names queues (some []) default = elim queues [ [] ↦ default | q ∷ qs ↦ q ∷ qs ]
queue_names queues (some (c ∷ cs)) default = (c ∷ cs) ∷ []

-- stream_keys: every queue of one priority before the next priority.
unfoldable pub stream_keys : Config → List Text → List Key
stream_keys self names =
    map (λ qname. stream_key self qname high) names
    ++ (map (λ qname. stream_key self qname normal) names
        ++ map (λ qname. stream_key self qname low) names)

-- What XREADGROUP is asked: the messages already delivered to the consumer, or new ones.
pub data ReadId : Type 0 where
  history fresh : ReadId

-- XREADGROUP of streams for a consumer with a count and the milliseconds of a block; none for NOGROUP.
abbrev pub Reader : Type 0 → Type 0
Reader S = List Key → Text → ReadId → ℕ → Option ℕ → S → Option (Key → List Message) × S

abbrev pub nothing : Key → List Message
nothing stream = []

-- WAIT_CHUNK_SECONDS, in milliseconds
abbrev pub wait_chunk : ℕ
wait_chunk = 1000

module _ {S : Type 0} (r : Server S) (self : Config) (xreadgroup : Reader S)
    (worker_id : Text) where
  create_groups : List Key → S → S
  create_groups [] s = s
  create_groups (stream ∷ streams) s = create_groups streams (r.apply (xgroup_create stream) s)

  -- A second NOGROUP raises.
  read_again : Option (Key → List Message) × S → Result (Key → List Message) × S
  read_again (none, s) = (raise (other_error (codes "NOGROUP")), s)
  read_again (some delivered, s) = (ok delivered, s)

  read_first :
      List Key
      → ReadId
      → ℕ
      → Option ℕ
      → Option (Key → List Message) × S
      → Result (Key → List Message) × S
  unfolding create_groups read_again
  read_first streams read_id count block (some delivered, s) = (ok delivered, s)
  read_first streams read_id count block (none, s) =
      read_again (xreadgroup streams worker_id read_id count block (create_groups streams s))

  -- _read
  unfoldable pub read : List Key → ReadId → ℕ → Option ℕ → Exec S (Key → List Message)
  unfolding read_first
  read streams read_id count block s =
      read_first streams read_id count block (xreadgroup streams worker_id read_id count block s)

  module _ (streams : List Key) (max_messages now : ℕ) where
    -- One read, and _take.
    unfoldable pub read_and_take :
        List Key → ReadId → ℕ → Option ℕ → List BrokerMessage → Exec S (List BrokerMessage)
    read_and_take asked read_id count block messages = do
      delivered ← read asked read_id count block
      take_all r self delivered max_messages now streams messages

    -- `for stream_key in stream_keys`: whether the call is over, with what it holds.
    read_streams : List Key → List BrokerMessage → Exec S (List BrokerMessage)
    unfolding read_and_take
    read_streams [] messages s = (ok messages, s)
    read_streams (stream ∷ rest) messages s =
        (read_and_take (stream ∷ []) fresh (max_messages - length messages) none messages
            >>= λ taken.
                let later = read_streams rest taken in
                if leb max_messages (length taken) then pure taken else later)
          s

    -- The wait: the clock and the shutdown flag are read at each turn; none if the fuel ran out.
    wait_again :
        (List BrokerMessage → S → Option (Result (List BrokerMessage) × S))
        → Result (List BrokerMessage) × S
        → Option (Result (List BrokerMessage) × S)
    wait_again again (raise e, s) = some (raise e, s)
    wait_again again (ok [], s) = again [] s
    wait_again again (ok (m ∷ ms), s) = some (ok (m ∷ ms), s)

    wait_for :
        ℕ
        → (S → ℕ)
        → (S → Bool)
        → ℕ
        → List BrokerMessage
        → S
        → Option (Result (List BrokerMessage) × S)
    unfolding wait_again read_and_take
    wait_for zero monotonic is_requested deadline messages s = none
    wait_for (suc fuel) monotonic is_requested deadline messages s =
        let remaining = deadline - monotonic s in
        let block = max 1 (min remaining wait_chunk) in
        let waited =
          wait_again (λ ms s'. wait_for fuel monotonic is_requested deadline ms s')
            (read_and_take streams fresh max_messages (some block) messages s) in
        if leb deadline (monotonic s) || is_requested s then some (ok messages, s) else waited

    -- After the streams have been read one by one.
    or_wait :
        ℕ
        → (S → ℕ)
        → (S → Bool)
        → ℕ
        → Result (List BrokerMessage) × S
        → Option (Result (List BrokerMessage) × S)
    unfolding wait_for
    or_wait fuel monotonic is_requested wait_ms (raise e, s) = some (raise e, s)
    or_wait fuel monotonic is_requested wait_ms (ok (m ∷ ms), s) = some (ok (m ∷ ms), s)
    or_wait fuel monotonic is_requested wait_ms (ok [], s) =
        let waited = wait_for fuel monotonic is_requested (monotonic s + wait_ms) [] s in
        if wait_ms == 0 then some (ok [], s) else waited

    -- The history, and the streams if it leaves room.
    read_all : Exec S (List BrokerMessage)
    unfolding read_streams read_and_take
    read_all = do
      owned ← read_and_take streams history max_messages none []
      let fresh_ones = read_streams streams owned
      if leb max_messages (length owned) then pure owned else fresh_ones

    -- receive, after the delayed tasks have been promoted; `wait_ms` is wait_seconds, in milliseconds as the
    -- clock is.
    unfoldable pub receive_promoted :
        ℕ → (S → ℕ) → (S → Bool) → ℕ → S → Option (Result (List BrokerMessage) × S)
    unfolding read_all or_wait
    receive_promoted fuel monotonic is_requested wait_ms s =
        or_wait fuel monotonic is_requested wait_ms (read_all s)

  after_promotion :
      List Key
      → ℕ
      → ℕ
      → ℕ
      → (S → ℕ)
      → (S → Bool)
      → ℕ
      → Result Done × S
      → Option (Result (List BrokerMessage) × S)
  after_promotion streams max_messages now fuel monotonic is_requested wait_ms (raise e, s) =
      some (raise e, s)
  after_promotion streams max_messages now fuel monotonic is_requested wait_ms (ok done, s) =
      receive_promoted streams max_messages now fuel monotonic is_requested wait_ms s

  -- receive
  unfoldable pub receive :
      (S → Key → List Text)
      → List Text
      → ℕ
      → ℕ
      → ℕ
      → (S → ℕ)
      → (S → Bool)
      → ℕ
      → S
      → Option (Result (List BrokerMessage) × S)
  unfolding after_promotion
  receive due names max_messages now fuel monotonic is_requested wait_ms s =
      let received =
        after_promotion (stream_keys self names) max_messages now fuel monotonic is_requested
          wait_ms (promote_delayed_tasks r self due names s) in
      if ltb max_messages 1 then some (ok [], s) else received
