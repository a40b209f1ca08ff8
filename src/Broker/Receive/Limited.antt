-- ===== src/Broker/Receive/Limited.antt =====
-- A receive hands out no more messages than it was asked for (brokers/streams.py).
use django_tasks_redis.Prelude.{
  is_some, true, ◌∙◌, ap, ℕ, zero, suc, ◌+◌, ◌-◌, ◌≤◌, ◌≡◌, refl, Bool, ◌||◌, Option, none, some,
  List, [], ◌∷◌, Text, ltb, leb, ◌==◌, length, Result, ok, raise, Exec, ◌>>=◌, continue, arith,
  Bool-cases, inl, inr, bind-eq-ok, min, max,
}
use django_tasks_redis.Redis.{Key, Server}
use django_tasks_redis.Backend.Config.{Config}
use django_tasks_redis.Backend.Run.{Done}
use django_tasks_redis.Broker.{BrokerMessage, promote_delayed_tasks}
use django_tasks_redis.Broker.Resolved.{take_all_bounded}
use django_tasks_redis.Broker.Receive.{
  Reader, ReadId, history, fresh, read, read_and_take, read_streams, wait_again, wait_for, or_wait,
  read_all, receive_promoted, after_promotion, receive, stream_keys, wait_chunk,
}

abbrev pub Limited : {S : Type 0} → ℕ → Result (List BrokerMessage) × S → Type 0
Limited limit (raise e, s) = 0 ≤ limit
Limited limit (ok messages, s) = length messages ≤ limit

abbrev LimitedIf : {S : Type 0} → ℕ → Option (Result (List BrokerMessage) × S) → Type 0
LimitedIf limit none = 0 ≤ limit
LimitedIf limit (some out) = Limited limit out

pub Limited-by :
    {S : Type 0} (limit : ℕ) (out : Result (List BrokerMessage) × S)
    → ((messages : List BrokerMessage) → out.0 ≡ ok messages → length messages ≤ limit)
    → Limited limit out
Limited-by limit (raise e, s) h = omega arith
Limited-by limit (ok messages, s) h = h messages refl

continue-Limited :
    {S : Type 0} {limit : ℕ} (out : Result (List BrokerMessage) × S)
    (f : List BrokerMessage → Exec S (List BrokerMessage))
    → Limited limit out
    → ((taken : List BrokerMessage) (s' : S) → length taken ≤ limit → Limited limit (f taken s'))
    → Limited limit (continue out.0 f out.1)
continue-Limited (raise e, s) f room later = room
continue-Limited (ok taken, s) f room later = later taken s room

bind-Limited :
    {S : Type 0} {limit : ℕ} (m : Exec S (List BrokerMessage))
    (f : List BrokerMessage → Exec S (List BrokerMessage)) (s : S)
    → Limited limit (m s)
    → ((taken : List BrokerMessage) (s' : S) → length taken ≤ limit → Limited limit (f taken s'))
    → Limited limit ((m >>= f) s)
bind-Limited m f s room later = continue-Limited (m s) f room later

module _ {S : Type 0} (r : Server S) (self : Config) (xreadgroup : Reader S) (worker_id : Text)
    (streams : List Key) (max_messages now : ℕ) where
  read_and_take-Limited :
      (asked : List Key) (read_id : ReadId) (count : ℕ) (block : Option ℕ)
      (messages : List BrokerMessage) (s : S)
      → length messages ≤ max_messages
      → Limited max_messages (
          read_and_take r self xreadgroup worker_id streams max_messages now asked read_id count
            block messages s)
  unfolding read_and_take
  read_and_take-Limited asked read_id count block messages s room =
      Limited-by max_messages _ λ taken e.
        let (delivered, e0, e1) =
          bind-eq-ok (read r self xreadgroup worker_id asked read_id count block) _ s e in
        take_all_bounded r self max_messages now delivered streams messages _ taken room e1

  read_streams-Limited :
      (rest : List Key) (messages : List BrokerMessage) (s : S)
      → length messages ≤ max_messages
      → Limited max_messages
          (read_streams r self xreadgroup worker_id streams max_messages now rest messages s)
  unfolding read_streams
  read_streams-Limited [] messages s room = room
  read_streams-Limited (stream ∷ rest) messages s room =
      bind-Limited
        (read_and_take r self xreadgroup worker_id streams max_messages now (stream ∷ []) fresh
          (max_messages - length messages) none messages)
        _ s
        (read_and_take-Limited (stream ∷ []) fresh (max_messages - length messages) none messages s
          room)
        (λ taken s' room'. elim (Bool-cases (leb max_messages (length taken))) [
          | inl full ↦ rw full room'
          | inr free ↦ rw free (read_streams-Limited rest taken s' room')
        ])

  read_all-Limited :
      (s : S)
      → Limited max_messages (read_all r self xreadgroup worker_id streams max_messages now s)
  unfolding read_all
  read_all-Limited s =
      bind-Limited
        (read_and_take r self xreadgroup worker_id streams max_messages now streams history
          max_messages none [])
        _ s (read_and_take-Limited streams history max_messages none [] s (omega arith))
        (λ owned s' room. elim (Bool-cases (leb max_messages (length owned))) [
          | inl full ↦ rw full room
          | inr free ↦ rw free (read_streams-Limited streams owned s' room)
        ])

  wait_again-LimitedIf :
      (again : List BrokerMessage → S → Option (Result (List BrokerMessage) × S))
      (out : Result (List BrokerMessage) × S)
      → Limited max_messages out
      → ((s : S) → LimitedIf max_messages (again [] s))
      → LimitedIf max_messages
          (wait_again r self xreadgroup worker_id streams max_messages now again out)
  unfolding wait_again
  wait_again-LimitedIf again (raise e, s) room later = room
  wait_again-LimitedIf again (ok [], s) room later = later s
  wait_again-LimitedIf again (ok (m ∷ ms), s) room later = room

  module _ (monotonic : S → ℕ) (is_requested : S → Bool) where
    wait_for-LimitedIf :
        (fuel deadline : ℕ) (s : S)
        → LimitedIf max_messages (
            wait_for r self xreadgroup worker_id streams max_messages now fuel monotonic
              is_requested deadline [] s)
    unfolding wait_for
    wait_for-LimitedIf zero deadline s = omega arith
    wait_for-LimitedIf (suc fuel) deadline s =
        let block = max 1 (min (deadline - monotonic s) wait_chunk) in
        elim (Bool-cases (leb deadline (monotonic s) || is_requested s)) [
          | inl over ↦ rw over (omega arith)
          | inr waits ↦ rw waits (
              wait_again-LimitedIf
                (λ ms s'.
                  wait_for r self xreadgroup worker_id streams max_messages now fuel monotonic
                    is_requested deadline ms s')
                _ (read_and_take-Limited streams fresh max_messages (some block) [] s (omega arith))
                (λ s'. wait_for-LimitedIf fuel deadline s'))
        ]

    or_wait-LimitedIf :
        (fuel wait_ms : ℕ) (out : Result (List BrokerMessage) × S)
        → Limited max_messages out
        → LimitedIf max_messages (
            or_wait r self xreadgroup worker_id streams max_messages now fuel monotonic is_requested
              wait_ms out)
    unfolding or_wait
    or_wait-LimitedIf fuel wait_ms (raise e, s) room = room
    or_wait-LimitedIf fuel wait_ms (ok (m ∷ ms), s) room = room
    or_wait-LimitedIf fuel wait_ms (ok [], s) room = elim (Bool-cases (wait_ms == 0)) [
      | inl polls ↦ rw polls (omega arith)
      | inr waits ↦ rw waits (wait_for-LimitedIf fuel (monotonic s + wait_ms) s)
    ]

received :
    {S : Type 0} (out : Option (Result (List BrokerMessage) × S))
    → is_some out ≡ true
    → (reply : Result (List BrokerMessage) × S) × (out ≡ some reply)
received none h = ground arith
received (some reply) h = (reply, refl)

limited_messages :
    {S : Type 0} (limit : ℕ) (out : Option (Result (List BrokerMessage) × S))
    (messages : List BrokerMessage) (s : S)
    → LimitedIf limit out
    → out ≡ some (ok messages, s)
    → length messages ≤ limit
limited_messages limit none messages s room e = cc
limited_messages limit (some (raise x, s')) messages s room e = cc
limited_messages limit (some (ok found, s')) messages s room e =
    let same : found ≡ messages = cc in rw (← same) room

module _ {S : Type 0} (r : Server S) (self : Config) (xreadgroup : Reader S) (worker_id : Text)
    (max_messages now : ℕ) (monotonic : S → ℕ) (is_requested : S → Bool) where
  after_promotion-LimitedIf :
      (streams : List Key) (fuel wait_ms : ℕ) (promoted : Result Done × S)
      → LimitedIf max_messages (
          after_promotion r self xreadgroup worker_id streams max_messages now fuel monotonic
            is_requested wait_ms promoted)
  unfolding after_promotion receive_promoted
  after_promotion-LimitedIf streams fuel wait_ms (raise e, s) = omega arith
  after_promotion-LimitedIf streams fuel wait_ms (ok done, s) =
      or_wait-LimitedIf r self xreadgroup worker_id streams max_messages now monotonic is_requested
        fuel wait_ms _ (read_all-Limited r self xreadgroup worker_id streams max_messages now s)

  -- Of the messages that a consumer owns, those that are new, and those that it waited for, a receive that
  -- returns hands out no more than it was asked for.
  pub receive-limited :
      (due : S → Key → List Text) (names : List Text) (fuel wait_ms : ℕ) (s s' : S)
      (messages : List BrokerMessage)
      → receive r self xreadgroup worker_id due names max_messages now fuel monotonic is_requested
          wait_ms s
        ≡ some (ok messages, s')
      → length messages ≤ max_messages
  unfolding receive
  receive-limited due names fuel wait_ms s s' messages e =
      let promoted = promote_delayed_tasks r self due names s in
      limited_messages max_messages _ messages s'
        (elim (Bool-cases (ltb max_messages 1)) [
          | inl zero_asked ↦ rw zero_asked (omega arith)
          | inr some_asked ↦
              rw some_asked
                (after_promotion-LimitedIf (stream_keys self names) fuel wait_ms promoted)
        ])
        e

  or_wait_polls :
      (streams : List Key) (fuel : ℕ) (out : Result (List BrokerMessage) × S)
      → is_some (
          or_wait r self xreadgroup worker_id streams max_messages now fuel monotonic is_requested 0
            out)
        ≡ true
  unfolding or_wait
  or_wait_polls streams fuel (raise e, s) = refl
  or_wait_polls streams fuel (ok (m ∷ ms), s) = refl
  or_wait_polls streams fuel (ok [], s) = refl

  after_promotion_polls :
      (streams : List Key) (fuel : ℕ) (promoted : Result Done × S)
      → is_some (
          after_promotion r self xreadgroup worker_id streams max_messages now fuel monotonic
            is_requested 0 promoted)
        ≡ true
  unfolding after_promotion receive_promoted
  after_promotion_polls streams fuel (raise e, s) = refl
  after_promotion_polls streams fuel (ok done, s) = or_wait_polls streams fuel _

  -- A receive that is not asked to wait returns, whatever the server delivers: it hands out messages, or
  -- an exception of a read, of a hash or of a promotion. Of the messages that the consumer owns and those
  -- that are new, it hands out no more than it was asked for.
  pub receive_polls :
      (due : S → Key → List Text) (names : List Text) (fuel : ℕ) (s : S)
      → (out : Result (List BrokerMessage) × S) × (receive r self xreadgroup worker_id due names
            max_messages now fuel monotonic is_requested 0 s
          ≡ some out)
        × Limited max_messages out
  unfolding receive
  receive_polls due names fuel s =
      let promoted = promote_delayed_tasks r self due names s in
      let (out, ends) =
        received
          (receive r self xreadgroup worker_id due names max_messages now fuel monotonic
            is_requested 0 s)
          (elim (Bool-cases (ltb max_messages 1)) [
            | inl zero_asked ↦ rw zero_asked refl
            | inr some_asked ↦
                rw some_asked (after_promotion_polls (stream_keys self names) fuel promoted)
          ]) in
      (
        out,
        ends,
        Limited-by max_messages out (λ messages e.
            receive-limited due names fuel 0 s out.1 messages
              (ends ∙ ap (λ (x : Result (List BrokerMessage)). some (x, out.1)) e)),
      )
