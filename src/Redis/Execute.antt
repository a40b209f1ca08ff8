-- ===== src/Redis/Execute.antt =====
-- What is observed after a pipeline, by the effects of its commands in order.
use django_tasks_redis.Prelude.{
  ℕ, ◌≡◌, refl, ap, ◌∙◌, Bool, true, false, Option, List, [], ◌∷◌, ◌++◌, Text,
}
use django_tasks_redis.Task.{Hash}
use django_tasks_redis.Redis.Commands.{
  Key, Command, xadd, xack, xdel, delete, hash_effect, ttl_effect, member_effect, score_effect,
}
use django_tasks_redis.Redis.Interface.{Server, execute}

abbrev pub hash_effects : List Command → Key → Option Hash → Option Hash
hash_effects [] k h = h
hash_effects (c ∷ cs) k h = hash_effects cs k (hash_effect c k h)

abbrev pub ttl_effects : List Command → Key → Option ℕ → Option ℕ
ttl_effects [] k o = o
ttl_effects (c ∷ cs) k o = ttl_effects cs k (ttl_effect c k o)

abbrev pub member_effects : List Command → Key → Text → Bool → Bool
member_effects [] k m b = b
member_effects (c ∷ cs) k m b = member_effects cs k m (member_effect c k m b)

abbrev pub score_effects : List Command → Key → Text → Option ℕ → Option ℕ
score_effects [] k m o = o
score_effects (c ∷ cs) k m o = score_effects cs k m (score_effect c k m o)

module _ {S : Type 0} (r : Server S) where
  pub hgetall-execute :
      (cs : List Command) (s : S) (k : Key)
      → r.hgetall (execute r cs s) k ≡ hash_effects cs k (r.hgetall s k)
  unfolding execute
  hgetall-execute [] s k = refl
  hgetall-execute (c ∷ cs) s k =
      hgetall-execute cs (r.apply c s) k ∙ ap (hash_effects cs k) (r.hgetall-apply c s k)

  pub ttl-execute :
      (cs : List Command) (s : S) (k : Key)
      → r.ttl (execute r cs s) k ≡ ttl_effects cs k (r.ttl s k)
  unfolding execute
  ttl-execute [] s k = refl
  ttl-execute (c ∷ cs) s k =
      ttl-execute cs (r.apply c s) k ∙ ap (ttl_effects cs k) (r.ttl-apply c s k)

  pub is_member-execute :
      (cs : List Command) (s : S) (k : Key) (m : Text)
      → r.is_member (execute r cs s) k m ≡ member_effects cs k m (r.is_member s k m)
  unfolding execute
  is_member-execute [] s k m = refl
  is_member-execute (c ∷ cs) s k m =
      is_member-execute cs (r.apply c s) k m
      ∙ ap (member_effects cs k m) (r.is_member-apply c s k m)

  pub zscore-execute :
      (cs : List Command) (s : S) (k : Key) (m : Text)
      → r.zscore (execute r cs s) k m ≡ score_effects cs k m (r.zscore s k m)
  unfolding execute
  zscore-execute [] s k m = refl
  zscore-execute (c ∷ cs) s k m =
      zscore-execute cs (r.apply c s) k m ∙ ap (score_effects cs k m) (r.zscore-apply c s k m)

  -- A pipeline in two parts is the first part, then the second.
  pub execute-append :
      (cs ds : List Command) (s : S) → execute r (cs ++ ds) s ≡ execute r ds (execute r cs s)
  unfolding execute
  execute-append [] ds s = refl
  execute-append (c ∷ cs) ds s = execute-append cs ds (r.apply c s)

pub score_effects-append :
    (cs ds : List Command) (k : Key) (m : Text) (o : Option ℕ)
    → score_effects (cs ++ ds) k m o ≡ score_effects ds k m (score_effects cs k m o)
score_effects-append [] ds k m o = refl
score_effects-append (c ∷ cs) ds k m o = score_effects-append cs ds k m (score_effect c k m o)

pub hash_effects-append :
    (cs ds : List Command) (k : Key) (h : Option Hash)
    → hash_effects (cs ++ ds) k h ≡ hash_effects ds k (hash_effects cs k h)
hash_effects-append [] ds k h = refl
hash_effects-append (c ∷ cs) ds k h = hash_effects-append cs ds k (hash_effect c k h)

pub ttl_effects-append :
    (cs ds : List Command) (k : Key) (o : Option ℕ)
    → ttl_effects (cs ++ ds) k o ≡ ttl_effects ds k (ttl_effects cs k o)
ttl_effects-append [] ds k o = refl
ttl_effects-append (c ∷ cs) ds k o = ttl_effects-append cs ds k (ttl_effect c k o)

pub member_effects-append :
    (cs ds : List Command) (k : Key) (m : Text) (b : Bool)
    → member_effects (cs ++ ds) k m b ≡ member_effects ds k m (member_effects cs k m b)
member_effects-append [] ds k m b = refl
member_effects-append (c ∷ cs) ds k m b = member_effects-append cs ds k m (member_effect c k m b)

-- A pipeline with no XADD, XDEL, XACK or DEL leaves every stream and what it has pending as it was.
abbrev pub leaves_streams : List Command → Bool
leaves_streams [] = true
leaves_streams (xadd k fs ∷ cs) = false
leaves_streams (xdel k i ∷ cs) = false
leaves_streams (xack k i ∷ cs) = false
leaves_streams (delete k ∷ cs) = false
leaves_streams (_ ∷ cs) = leaves_streams cs

pub leaves_streams-append :
    (cs ds : List Command)
    → leaves_streams cs ≡ true
    → leaves_streams ds ≡ true
    → leaves_streams (cs ++ ds) ≡ true
leaves_streams-append [] ds h h' = h'
leaves_streams-append (xadd k fs ∷ cs) ds h h' = cc
leaves_streams-append (xdel k i ∷ cs) ds h h' = cc
leaves_streams-append (xack k i ∷ cs) ds h h' = cc
leaves_streams-append (delete k ∷ cs) ds h h' = cc
leaves_streams-append (_ ∷ cs) ds h h' = leaves_streams-append cs ds h h'

module _ {S : Type 0} (r : Server S) where
  pub xrange-execute :
      (cs : List Command) (s : S) (k : Key)
      → leaves_streams cs ≡ true
      → r.xrange (execute r cs s) k ≡ r.xrange s k
  unfolding execute
  xrange-execute [] s k h = refl
  xrange-execute (xadd j fs ∷ cs) s k h = cc
  xrange-execute (xdel j i ∷ cs) s k h = cc
  xrange-execute (xack j i ∷ cs) s k h = cc
  xrange-execute (delete j ∷ cs) s k h = cc
  xrange-execute (c ∷ cs) s k h = xrange-execute cs (r.apply c s) k h ∙ r.xrange-apply c s k

  pub xpending-execute :
      (cs : List Command) (s : S) (k : Key)
      → leaves_streams cs ≡ true
      → r.xpending (execute r cs s) k ≡ r.xpending s k
  unfolding execute
  xpending-execute [] s k h = refl
  xpending-execute (xadd j fs ∷ cs) s k h = cc
  xpending-execute (xdel j i ∷ cs) s k h = cc
  xpending-execute (xack j i ∷ cs) s k h = cc
  xpending-execute (delete j ∷ cs) s k h = cc
  xpending-execute (c ∷ cs) s k h = xpending-execute cs (r.apply c s) k h ∙ r.xpending-apply c s k
