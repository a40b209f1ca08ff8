-- ===== src/Broker/Recovery/Consumers.antt =====
-- Which consumers a sweep removes (brokers/streams.py, _remove_idle_consumers).
use django_tasks_redis.Prelude.{
  ℕ, ◌+◌, ◌≡◌, refl, sym, ap, ◌∙◌, Bool, true, false, not, ◌&&◌, ◌||◌, List, [], ◌∷◌, Text, text_eq,
  ltb, ◌==◌, any, select, Bool-cases, inl, inr,
}
use django_tasks_redis.Redis.{Key, Server}
use django_tasks_redis.Backend.Config.{Config}
use django_tasks_redis.Broker.Recovery.{Group, Consumer, remove_each, remove_idle_consumers}

-- What XGROUP DELCONSUMER documents: the consumer of the name leaves the group of the stream.
abbrev pub DeletesConsumer : {S : Type 0} → Group S → Type 0
DeletesConsumer group =
    (stream : Key) (name : Text) (s : _)
    → group.xinfo_consumers (group.xgroup_delconsumer stream name s) stream
      ≡ select (λ (c : Consumer). not (text_eq c.name name)) (group.xinfo_consumers s stream)

-- Another consumer, with nothing pending, that has been idle for the timeout.
abbrev pub is_dead : Text → ℕ → Consumer → Bool
is_dead worker_id timeout c =
    not (text_eq c.name worker_id || not (c.pending == 0) || ltb c.idle timeout)

abbrev pub named_dead : Text → ℕ → List Consumer → Consumer → Bool
named_dead worker_id timeout dead c =
    any (λ (d : Consumer). is_dead worker_id timeout d && text_eq c.name d.name) dead

not_or : (a b : Bool) → not (a || b) ≡ (not a && not b)
not_or true b = refl
not_or false b = refl

select-select :
    {A : Type 0} (p q t : A → Bool) (xs : List A)
    → ((x : A) → t x ≡ (q x && p x))
    → select p (select q xs) ≡ select t xs
select-select p q t [] h = refl
select-select p q t (x ∷ xs) h =
    let rest = select-select p q t xs h in
    elim (Bool-cases (q x)) [
      | inr no_q ↦ rw (h x, no_q) rest
      | inl has_q ↦ elim (Bool-cases (p x)) [
        | inr no_p ↦ rw (h x, has_q, no_p) rest
        | inl has_p ↦ rw (h x, has_q, has_p) (ap (λ ys. x ∷ ys) rest)
      ]
    ]

select_every : {A : Type 0} (xs : List A) → select (λ x. true) xs ≡ xs
select_every [] = refl
select_every (x ∷ xs) = ap (λ ys. x ∷ ys) (select_every xs)

module _ {S : Type 0} (r : Server S) (self : Config) (group : Group S) (worker_id : Text)
    (claim_timeout_ms max_deliveries : ℕ) (reason : Text) (moved_at recorded_at : ℕ)
    (documented : DeletesConsumer group) (stream : Key) where
  remove_each_lem :
      (consumers : List Consumer) (removed : ℕ) (s : S)
      → group.xinfo_consumers
          (remove_each r self group worker_id claim_timeout_ms max_deliveries reason moved_at
            recorded_at stream consumers removed s).1
          stream
        ≡ select
            (λ c. not (named_dead worker_id claim_timeout_ms consumers c))
            (group.xinfo_consumers s stream)
  unfolding remove_each
  remove_each_lem [] removed s = sym (select_every _)
  remove_each_lem (d ∷ consumers) removed s =
      let keeps = text_eq d.name worker_id || not (d.pending == 0) || ltb d.idle claim_timeout_ms in
      let before = group.xinfo_consumers s stream in
      let dead = named_dead worker_id claim_timeout_ms in
      elim (Bool-cases keeps) [
        | inl kept ↦ rw kept (remove_each_lem consumers removed s)
        | inr gone ↦ rw gone (
            remove_each_lem consumers (removed + 1) (group.xgroup_delconsumer stream d.name s)
            ∙ ap (select (λ c. not (dead consumers c))) (documented stream d.name s)
            ∙ select-select (λ c. not (dead consumers c)) (λ c. not (text_eq c.name d.name))
                (λ c. not (text_eq c.name d.name || dead consumers c)) before
                (λ c. not_or (text_eq c.name d.name) (dead consumers c)))
      ]

  -- With XGROUP DELCONSUMER as documented: after a sweep of a stream its consumers are those from before
  -- except for every one that has the name of a dead consumer: one other than the sweeping worker, with
  -- nothing pending, and idle for the claim timeout.
  pub remove_idle_consumers-select :
      (s : S)
      → let before = group.xinfo_consumers s stream in
        let (removed, after) =
          remove_idle_consumers r self group worker_id claim_timeout_ms max_deliveries reason
            moved_at recorded_at stream s in
        group.xinfo_consumers after stream
        ≡ select (λ c. not (named_dead worker_id claim_timeout_ms before c)) before
  unfolding remove_idle_consumers
  remove_idle_consumers-select s = remove_each_lem (group.xinfo_consumers s stream) 0 s
