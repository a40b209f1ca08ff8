-- ===== src/Broker/Recovery/Bounded.antt =====
-- One sweep takes over a bounded number of messages (brokers/streams.py, claim_stale_messages).
use django_tasks_redis.Prelude.{
  ℕ, zero, suc, ◌+◌, ◌-◌, ◌≤◌, ◌<◌, ◌≡◌, refl, sym, ◌∙◌, Bool, true, false, Option, none, some,
  List, [], ◌∷◌, Text, ltb, leb, ◌==◌, length, arith, Bool-cases, inl, inr,
}
use django_tasks_redis.Redis.{Key, Server}
use django_tasks_redis.Backend.Config.{Config}
use django_tasks_redis.Broker.Recovery.{
  Group, PendingEntry, claim_entry, claim_entries, claim_pages, claim_stale_in_stream, claim_next,
  claim_streams, after_claims, claim_stale_messages, max_claims_per_sweep, next_start,
  pending_page_size,
}

some_pair :
    {A B : Type 0} (a b : A) (s t : B)
    → ◌≡◌ {A = Option (A × B)} (some (a, s)) (some (b, t))
    → a ≡ b
some_pair a b s t e = cc

abbrev Capped : {S : Type 0} → ℕ → Option (ℕ × S) → Type 0
Capped limit none = 0 ≤ limit
Capped limit (some (n, s)) = n ≤ limit

Capped-by :
    {S : Type 0} (limit : ℕ) (out : Option (ℕ × S))
    → ((m : ℕ) (s : S) → out ≡ some (m, s) → m ≤ limit)
    → Capped limit out
Capped-by limit none h = omega arith
Capped-by limit (some (n, s)) h = h n s refl

abbrev Within : {S : Type 0} → Option (Bool × ℕ × S) → Type 0
Within none = 0 ≤ max_claims_per_sweep
Within (some (full, n, s)) = n ≤ max_claims_per_sweep

module _ {S : Type 0} (r : Server S) (self : Config) (group : Group S) (worker_id : Text)
    (claim_timeout_ms max_deliveries : ℕ) (reason : Text) (moved_at recorded_at : ℕ) where
  claim_entries-bounded :
      (stream : Key) (limit : ℕ) (entries : List PendingEntry) (n : ℕ) (s : S)
      → n < limit
      → (claim_entries r self group worker_id claim_timeout_ms max_deliveries reason moved_at
          recorded_at stream limit entries n s).0
        ≤ limit
  unfolding claim_entries
  claim_entries-bounded stream limit [] n s room = omega (arith, room)
  claim_entries-bounded stream limit (entry ∷ entries) n s room =
      let (counts, s') =
        claim_entry r self group worker_id claim_timeout_ms max_deliveries reason moved_at
          recorded_at stream entry s in
      elim (Bool-cases counts) [
        | inl taken ↦ elim (Bool-cases (leb limit (n + 1))) [
          | inl full ↦ rw (taken, full) (omega (arith, room))
          | inr free ↦
              rw (taken, free)
                (claim_entries-bounded stream limit entries (n + 1) s' (ground (arith, free)))
        ]
        | inr left ↦ rw left (claim_entries-bounded stream limit entries n s' room)
      ]

  claim_pages-bounded :
      (fuel : ℕ) (stream : Key) (limit start n : ℕ) (s : S) (m : ℕ) (s' : S)
      → n ≤ limit
      → claim_pages r self group worker_id claim_timeout_ms max_deliveries reason moved_at
          recorded_at fuel stream limit start n s
        ≡ some (m, s')
      → m ≤ limit
  unfolding claim_pages
  claim_pages-bounded zero stream limit start n s m s' room e = cc
  claim_pages-bounded (suc fuel) stream limit start n s m s' room e =
      let page = group.xpending_range s stream start pending_page_size in
      let (n1, s1) =
        claim_entries r self group worker_id claim_timeout_ms max_deliveries reason moved_at
          recorded_at stream limit page n s in
      elim (Bool-cases (leb limit n)) [
        | inl full ↦
            let same : ◌≡◌ {A = Option (ℕ × S)} (some (n, s)) (some (m, s')) =
              sym (rw full refl) ∙ e in
            rw (← some_pair n m s s' same) room
        | inr free ↦
            let within = claim_entries-bounded stream limit page n s (ground (arith, free)) in
            elim (Bool-cases (length page == 0)) [
              | inl empty ↦
                  let same : ◌≡◌ {A = Option (ℕ × S)} (some (n, s)) (some (m, s')) =
                    sym (rw (free, empty) refl) ∙ e in
                  rw (← some_pair n m s s' same) room
              | inr more ↦ elim (Bool-cases (ltb (length page) pending_page_size)) [
                | inl short ↦
                    let same : ◌≡◌ {A = Option (ℕ × S)} (some (n1, s1)) (some (m, s')) =
                      sym (rw (free, more, short) refl) ∙ e in
                    rw (← some_pair n1 m s1 s' same) within
                | inr long ↦
                    claim_pages-bounded fuel stream limit (next_start page start) n1 s1 m s' within
                      (sym (rw (free, more, long) refl) ∙ e)
              ]
            ]
      ]

  in_stream-Capped :
      (fuel : ℕ) (stream : Key) (limit : ℕ) (s : S)
      → Capped limit (
          claim_stale_in_stream r self group worker_id claim_timeout_ms max_deliveries reason
            moved_at recorded_at fuel stream limit s)
  unfolding claim_stale_in_stream
  in_stream-Capped fuel stream limit s = elim (Bool-cases (group.has_pending s stream)) [
    | inl pending ↦ rw pending (
        Capped-by limit _
          (λ m s' e. claim_pages-bounded fuel stream limit 0 0 s m s' (omega arith) e))
    | inr quiet ↦ rw quiet (omega arith)
  ]

  claim_next-Within :
      (rest : ℕ → S → Option (Bool × ℕ × S)) (n : ℕ) (out : Option (ℕ × S))
      → n ≤ max_claims_per_sweep
      → Capped (max_claims_per_sweep - n) out
      → ((k : ℕ) (s : S) → k ≤ max_claims_per_sweep → Within (rest k s))
      → Within (
          claim_next r self group worker_id claim_timeout_ms max_deliveries reason moved_at
            recorded_at rest n out)
  unfolding claim_next
  claim_next-Within rest n none room capped later = omega arith
  claim_next-Within rest n (some (k, s)) room capped later =
      elim (Bool-cases (leb max_claims_per_sweep (n + k))) [
        | inl full ↦ rw full (omega (arith, room, capped))
        | inr free ↦ rw free (later (n + k) s (omega (arith, room, capped)))
      ]

  claim_streams-Within :
      (fuel : ℕ) (streams : List Key) (n : ℕ) (s : S)
      → n ≤ max_claims_per_sweep
      → Within (
          claim_streams r self group worker_id claim_timeout_ms max_deliveries reason moved_at
            recorded_at fuel streams n s)
  unfolding claim_streams
  claim_streams-Within fuel [] n s room = room
  claim_streams-Within fuel (stream ∷ streams) n s room =
      claim_next-Within
        (claim_streams r self group worker_id claim_timeout_ms max_deliveries reason moved_at
          recorded_at fuel streams)
        n _ room (in_stream-Capped fuel stream (max_claims_per_sweep - n) s)
        (λ k s' room'. claim_streams-Within fuel streams k s' room')

  after_claims-bounded :
      (streams : List Key) (out : Option (Bool × ℕ × S)) (m : ℕ) (s' : S)
      → Within out
      → after_claims r self group worker_id claim_timeout_ms max_deliveries reason moved_at
          recorded_at streams out
        ≡ some (m, s')
      → m ≤ max_claims_per_sweep
  unfolding after_claims
  after_claims-bounded streams none m s' within e = cc
  after_claims-bounded streams (some (true, n, s)) m s' within e =
      rw (← some_pair n m s s' e) within
  after_claims-bounded streams (some (false, n, s)) m s' within e =
      rw (← some_pair n m _ s' e) within

  -- A sweep that returns has claimed no more messages than MAX_CLAIMS_PER_SWEEP, over all the streams,
  -- however much is pending and whatever becomes of each message.
  pub claim_stale_messages-bounded :
      (fuel : ℕ) (streams : List Key) (s : S) (m : ℕ) (s' : S)
      → claim_stale_messages r self group worker_id claim_timeout_ms max_deliveries reason moved_at
          recorded_at fuel streams s
        ≡ some (m, s')
      → m ≤ max_claims_per_sweep
  unfolding claim_stale_messages
  claim_stale_messages-bounded fuel streams s m s' e =
      after_claims-bounded streams _ m s' (claim_streams-Within fuel streams 0 s (omega arith)) e
