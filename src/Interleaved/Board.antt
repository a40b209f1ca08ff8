-- ===== src/Interleaved/Board.antt =====
-- The statuses of the tasks as clients may think of them, one field per task, and that the store with
-- its scripts and transactions behaves so.
use django_tasks_redis.Prelude.{
  Option, none, some, List, [], ◌∷◌, Text, text_eq, any, if◌then◌else◌,
}
use django_tasks_redis.Prelude.Int.{ℤ, pos, negsuc}
use django_tasks_redis.Task.{
  Value, Status, ready, running, successful, failed, state, status, has_status,
}
use django_tasks_redis.Redis.{Server, hget}
use django_tasks_redis.Backend.Config.{Config, result_key}
use django_tasks_redis.Interleaved.{Write}

-- The status field of every task, none for a task that is not stored.
abbrev pub Board : Type 0
Board = Text → Option Value

abbrev pub put : Text → Option Value → Board → Board
put id v b m = if text_eq id m then v else b m

-- A move from one of the statuses allowed; `missing` is the reply for a task that is not stored.
unfoldable pub move : ℤ → Text → Status → List Status → Option Value → Board → ℤ × Board
move missing id to_status allowed none b = (missing, b)
move missing id to_status allowed (some v) b =
    if any (has_status (some v)) allowed
    then (pos 1, put id (some (state to_status)) b)
    else (pos 0, b)

-- Whether a task still has the status that it was read with.
unfoldable pub still : Status → Option Value → ℤ
still read_status none = negsuc 0
still read_status (some v) = if has_status (some v) read_status then pos 1 else pos 0

-- What a write promises: its reply, and the statuses after it.
unfoldable pub advance : Write → Board → ℤ × Board
unfolding move still
advance (Write.claim id queue worker now allowed) b = move (negsuc 0) id running allowed (b id) b
advance (Write.transition id queue to_status now allowed) b =
    move (pos 0) id to_status allowed (b id) b
advance (Write.index_task id queue read_status since now) b = (still read_status (b id), b)
advance (Write.finish_failed id task_data error now) b = (pos 0, put id (some (state failed)) b)
advance (Write.finish_successful id task_data value now) b =
    (pos 0, put id (some (state successful)) b)
advance (Write.submit task id args kwargs now) b = (pos 0, put id (some (state ready)) b)
advance (Write.remove id queue) b = (pos 0, put id none b)
advance (Write.reset id queue now) b = (pos 0, put id (some (state ready)) b)
advance (Write.prune_index queue st bound) b = (pos 0, b)
advance (Write.promote queue id level fields) b = (pos 0, b)
advance (Write.postpone queue id due) b = (pos 0, b)
advance (Write.acknowledge message) b = (pos 0, b)

unfoldable pub advance_all : List Write → Board → List ℤ × Board
unfolding advance
advance_all [] b = ([], b)
advance_all (w ∷ ws) b =
    let (reply, b') = advance w b in
    let (replies, b'') = advance_all ws b' in (reply ∷ replies, b'')

-- The board that a store shows.
module _ {S : Type 0} (r : Server S) (self : Config) where
  abbrev pub board : S → Board
  board s m = hget r s (result_key self m) status
