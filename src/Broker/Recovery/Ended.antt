-- ===== src/Broker/Recovery/Ended.antt =====
-- A sweep ends (brokers/streams.py, claim_stale_messages and _claim_stale_in_stream).
use django_tasks_redis.Prelude.{
  ℕ, zero, suc, ◌+◌, ◌-◌, ◌≤◌, ◌<◌, ◌≡◌, refl, Bool, true, false, ◌&&◌, Option, none, some, is_some,
  List, [], ◌∷◌, Text, ltb, leb, ◌==◌, all, length, arith, Bool-cases, inl, inr,
}
use django_tasks_redis.Redis.{Key, Server}
use django_tasks_redis.Backend.Config.{Config}
use django_tasks_redis.Broker.Recovery.{
  Group, PendingEntry, claim_entries, claim_pages, claim_stale_in_stream, claim_next, claim_streams,
  after_claims, claim_stale_messages, max_claims_per_sweep, next_start, pending_page_size,
}
use django_tasks_redis.Broker.Recovery.Bounded.{claim_stale_messages-bounded}

abbrev pub in_range : ℕ → ℕ → PendingEntry → Bool
in_range start bound entry = leb start entry.message_id && ltb entry.message_id bound

-- What XPENDING with a range documents: the entries have ids from the start on; every id of a stream is
-- below a bound (an id has two parts of 64 bits).
abbrev pub RangesFrom : {S : Type 0} → Group S → ℕ → Type 0
RangesFrom group bound =
    (s : _) (stream : Key) (start : ℕ)
    → all (in_range start bound) (group.xpending_range s stream start pending_page_size) ≡ true

next_start_within :
    (bound start k : ℕ) (entry : PendingEntry) (entries : List PendingEntry)
    → all (in_range k bound) (entry ∷ entries) ≡ true
    → (k < next_start (entry ∷ entries) start) × (next_start (entry ∷ entries) start ≤ bound)
next_start_within bound start k entry [] h = (ground (arith, h), ground (arith, h))
next_start_within bound start k entry (entry' ∷ entries) h =
    next_start_within bound start k entry' entries (ground (arith, h))

next_start_grows :
    (bound start : ℕ) (page : List PendingEntry)
    → all (in_range start bound) page ≡ true
    → (length page == 0) ≡ false
    → (start < next_start page start) × (next_start page start ≤ bound)
next_start_grows bound start [] h more = ground (arith, more)
next_start_grows bound start (entry ∷ entries) h more =
    next_start_within bound start start entry entries h

result_of :
    {S : Type 0} (out : Option (ℕ × S))
    → is_some out ≡ true
    → (m : ℕ) × (s : S) × (out ≡ some (m, s))
result_of none h = ground arith
result_of (some (m, s)) h = (m, s, refl)

module _ {S : Type 0} (r : Server S) (self : Config) (group : Group S) (worker_id : Text)
    (claim_timeout_ms max_deliveries : ℕ) (reason : Text) (moved_at recorded_at bound : ℕ)
    (ranges : RangesFrom group bound) where
  claim_pages_returns :
      (fuel : ℕ) (stream : Key) (limit start n : ℕ) (s : S)
      → start ≤ bound
      → bound - start < fuel
      → is_some (
          claim_pages r self group worker_id claim_timeout_ms max_deliveries reason moved_at
            recorded_at fuel stream limit start n s)
        ≡ true
  unfolding claim_pages
  claim_pages_returns zero stream limit start n s low enough = ground (arith, enough)
  claim_pages_returns (suc fuel) stream limit start n s low enough =
      let page = group.xpending_range s stream start pending_page_size in
      let (n1, s1) =
        claim_entries r self group worker_id claim_timeout_ms max_deliveries reason moved_at
          recorded_at stream limit page n s in
      elim (Bool-cases (leb limit n)) [
        | inl full ↦ rw full refl
        | inr free ↦ elim (Bool-cases (length page == 0)) [
          | inl empty ↦ rw (free, empty) refl
          | inr more ↦ elim (Bool-cases (ltb (length page) pending_page_size)) [
            | inl short ↦ rw (free, more, short) refl
            | inr long ↦
                let (grows, within) =
                  next_start_grows bound start page (ranges s stream start) more in
                rw (free, more, long)
                  (claim_pages_returns fuel stream limit (next_start page start) n1 s1 within
                    (omega (arith, grows, within, low, enough)))
          ]
        ]
      ]

  in_stream_returns :
      (stream : Key) (limit : ℕ) (s : S)
      → is_some (
          claim_stale_in_stream r self group worker_id claim_timeout_ms max_deliveries reason
            moved_at recorded_at
            (suc bound)
            stream
            limit
            s)
        ≡ true
  unfolding claim_stale_in_stream
  in_stream_returns stream limit s = elim (Bool-cases (group.has_pending s stream)) [
    | inl pending ↦
        rw pending (claim_pages_returns (suc bound) stream limit 0 0 s (omega arith) (omega arith))
    | inr quiet ↦ rw quiet refl
  ]

  claim_next_returns :
      (rest : ℕ → S → Option (Bool × ℕ × S)) (n : ℕ) (out : Option (ℕ × S))
      → is_some out ≡ true
      → ((k : ℕ) (s : S) → is_some (rest k s) ≡ true)
      → is_some (
          claim_next r self group worker_id claim_timeout_ms max_deliveries reason moved_at
            recorded_at rest n out)
        ≡ true
  unfolding claim_next
  claim_next_returns rest n none h later = h
  claim_next_returns rest n (some (k, s)) h later =
      elim (Bool-cases (leb max_claims_per_sweep (n + k))) [
        | inl full ↦ rw full refl
        | inr free ↦ rw free (later (n + k) s)
      ]

  claim_streams_returns :
      (streams : List Key) (n : ℕ) (s : S)
      → is_some (
          claim_streams r self group worker_id claim_timeout_ms max_deliveries reason moved_at
            recorded_at
            (suc bound)
            streams
            n
            s)
        ≡ true
  unfolding claim_streams
  claim_streams_returns [] n s = refl
  claim_streams_returns (stream ∷ streams) n s =
      claim_next_returns
        (claim_streams r self group worker_id claim_timeout_ms max_deliveries reason moved_at
          recorded_at (suc bound) streams)
        n _ (in_stream_returns stream (max_claims_per_sweep - n) s)
        (λ k s'. claim_streams_returns streams k s')

  after_claims_returns :
      (streams : List Key) (out : Option (Bool × ℕ × S))
      → is_some out ≡ true
      → is_some (
          after_claims r self group worker_id claim_timeout_ms max_deliveries reason moved_at
            recorded_at streams out)
        ≡ true
  unfolding after_claims
  after_claims_returns streams none h = h
  after_claims_returns streams (some (true, n, s)) h = refl
  after_claims_returns streams (some (false, n, s)) h = refl

  -- With XPENDING as documented, and ids below a bound: a sweep of any streams ends, and has claimed no
  -- more messages than MAX_CLAIMS_PER_SWEEP, over all the streams, however much is pending and whatever
  -- becomes of each message.
  pub claim_stale_messages_ends :
      (streams : List Key) (s : S)
      → (m : ℕ) × (s' : S) × (claim_stale_messages r self group worker_id claim_timeout_ms
            max_deliveries reason moved_at recorded_at
            (suc bound)
            streams
            s
          ≡ some (m, s'))
        × (m ≤ max_claims_per_sweep)
  unfolding claim_stale_messages
  claim_stale_messages_ends streams s =
      let (m, s', ends) =
        result_of _ (after_claims_returns streams _ (claim_streams_returns streams 0 s)) in
      (
        m,
        s',
        ends,
        claim_stale_messages-bounded r self group worker_id claim_timeout_ms max_deliveries reason
            moved_at recorded_at (suc bound) streams s m s' ends,
      )
