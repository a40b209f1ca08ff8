-- ===== src/Broker/Promoted.antt =====
-- Every worker scans the delayed set, so several promote one task (brokers/streams.py,
-- _PROMOTE_DELAYED_TASK and promote_delayed_tasks).
use django_tasks_redis.Prelude.{
  ℕ, ◌≡◌, refl, ◌∙◌, true, false, none, some, List, [], ◌∷◌, ◌++◌, Text, text_eq, text_eq_refl,
  if◌then◌else◌, Option-cases, inl, inr,
}
use django_tasks_redis.Prelude.Int.{pos}
use django_tasks_redis.Task.{Field, Value, ready, status, has_status}
use django_tasks_redis.Redis.{Key, zrem, xadd, Server, hget}
use django_tasks_redis.Broker.{promote_script}

module _ {S : Type 0} (r : Server S) (delayed result stream : Key) (id : Text) where
  -- Each worker with the entry that it read the task as, in the order their scripts reach the server.
  unfoldable pub promoters : List (List (Field × Value)) → S → S
  promoters [] s = s
  promoters (fields ∷ others) s =
      promoters others (promote_script r delayed result stream id ready fields s).1

  -- Once the task has left the delayed set, nobody promotes it.
  promoters_gone :
      (others : List (List (Field × Value))) (s : S)
      → r.zscore s delayed id ≡ none
      → ((k : Key) → r.xrange (promoters others s) k ≡ r.xrange s k)
        × (r.zscore (promoters others s) delayed id ≡ none)
  unfolding promoters promote_script
  promoters_gone [] s gone = (λ k. refl, gone)
  promoters_gone (fields ∷ others) s gone =
      let later =
        promoters_gone others (r.apply (zrem delayed id) s)
          (rw (r.zscore-apply, text_eq_refl, text_eq_refl)) in
      rw gone (λ k. later.0 k ∙ r.xrange-apply (zrem delayed id) s k, later.1)

  -- Any number of workers promote a delayed task that is READY: its stream gets one entry, every other
  -- stream stays as it was, and the task has left the delayed set.
  pub promote_once :
      (fields : List (Field × Value)) (others : List (List (Field × Value))) (s : S) (due : ℕ)
      → r.zscore s delayed id ≡ some due
      → has_status (hget r s result status) ready ≡ true
      → let after = promoters (fields ∷ others) s in
        (i : ℕ) × ((k : Key)
          → r.xrange after k ≡ (
              if text_eq stream k
              then r.xrange s k ++ record { message_id = i; fields = fields } ∷ []
              else r.xrange s k))
        × (r.zscore after delayed id ≡ none)
  unfolding promoters promote_script
  promote_once fields others s due waits idle =
      let s1 = r.apply (zrem delayed id) s in
      let sent = xadd stream fields in
      let later =
        promoters_gone others (r.apply sent s1)
          (rw (r.zscore-apply sent s1, r.zscore-apply _ s, text_eq_refl, text_eq_refl)) in
      rw (waits, r.hgetall-apply, idle)
        (
          r.next_id s1,
          λ k. later.0 k ∙ r.xrange-apply sent s1 k ∙ rw (r.xrange-apply _ s k),
          later.1,
        )

  -- A delayed task that is no longer READY leaves the delayed set and reaches no stream.
  pub promote_script_drops :
      (fields : List (Field × Value)) (s : S)
      → has_status (hget r s result status) ready ≡ false
      → let (promoted, after) = promote_script r delayed result stream id ready fields s in
        (promoted ≡ pos 0)
        × ((k : Key) → r.xrange after k ≡ r.xrange s k)
        × (r.zscore after delayed id ≡ none)
  unfolding promote_script
  promote_script_drops fields s busy =
      let s1 = r.apply (zrem delayed id) s in
      let left = (λ (k : Key). r.xrange-apply (zrem delayed id) s k) in
      let out : r.zscore s1 delayed id ≡ none = rw (r.zscore-apply, text_eq_refl, text_eq_refl) in
      elim (Option-cases (r.zscore s delayed id)) [
        | inl e ↦ rw e (refl, left, out)
        | inr (t, e) ↦ rw (e, r.hgetall-apply, busy) (refl, left, out)
      ]
