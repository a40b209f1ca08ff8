-- ===== src/Shutdown.antt =====
-- Graceful shutdown (shutdown.py): the requests that signals make, the handlers that are installed and
-- restored, and the forced exit.
pub mod Requested
pub mod Restored
use django_tasks_redis.Prelude.{
  ℕ, ◌+◌, Bool, true, false, not, ◌&&◌, ◌||◌, Option, none, some, List, [], ◌∷◌, ◌++◌, ◌==◌, ltb,
  any, is_some, if◌then◌else◌, or_else,
}
use django_tasks_redis.Prelude.Int.{ℤ, pos}

-- bool() of a list or a dict
abbrev pub nonempty {ℓ} : {A : Type ℓ} → List A → Bool
nonempty [] = false
nonempty (x ∷ xs) = true

-- What signal.signal takes and returns: SIG_DFL, the `_handle_signal` of a GracefulShutdown (by the
-- number of the object), or some other callable.
pub data SignalHandler : Type 0 where
  sig_dfl : SignalHandler
  handle_signal_of : ℕ → SignalHandler
  callable : ℕ → SignalHandler

-- The process: the handler of each signal (none for one that was not set from Python),
-- `_active_shutdown`, and the code of os._exit.
pub record Process : Type 0 where
  pub handlers : ℕ → Option SignalHandler
  pub active_shutdown : Option ℕ
  pub exited : Option ℤ

pub record GracefulShutdown : Type 0 where
  -- which object it is
  pub object : ℕ
  pub signals : List ℕ
  pub timeout : ℕ
  pub force_on_repeat : Bool
  pub event : Bool
  pub original_handlers : List (ℕ × Option SignalHandler)
  pub installed : Bool
  pub request_count : ℕ
  pub signum : Option ℕ
  -- the seconds of the timer that runs
  pub timer : Option ℕ
  pub previous_active : Option ℕ

-- FORCED_EXIT_CODE
abbrev pub forced_exit_code : ℤ
forced_exit_code = pos 1

-- __init__
unfoldable pub new : ℕ → List ℕ → ℕ → Bool → GracefulShutdown
new object signals timeout force_on_repeat = record {
  object = object;
  signals = signals;
  timeout = timeout;
  force_on_repeat = force_on_repeat;
  event = false;
  original_handlers = [];
  installed = false;
  request_count = 0;
  signum = none;
  timer = none;
  previous_active = none;
}

start_timer : GracefulShutdown → GracefulShutdown
start_timer self = if ltb 0 self.timeout then record self { timer = some self.timeout } else self

cancel_timer : GracefulShutdown → GracefulShutdown
cancel_timer self = record self { timer = none }

-- set: the number of requests so far, and the object; the first request keeps its signal.
unfoldable pub set : Option ℕ → GracefulShutdown → ℕ × GracefulShutdown
unfolding start_timer
set signum self =
    let count = self.request_count + 1 in
    (
      count,
      if self.event
          then record self { request_count = count }
          else start_timer (record self { request_count = count; signum = signum; event = true }),
    )

-- force_exit: os._exit ends the process at once, so the first code stays.
abbrev pub forced : Option ℤ → Option ℤ
forced none = some forced_exit_code
forced (some code) = some code

abbrev pub force_exit : Process → Process
force_exit process = record process { exited = forced process.exited }

-- _handle_signal
unfoldable pub handle_signal : ℕ → GracefulShutdown × Process → GracefulShutdown × Process
unfolding set
handle_signal signum (self, process) =
    let (count, self') = set (some signum) self in
    (self', if not (count == 1) && self.force_on_repeat then force_exit process else process)

-- The signals that arrive, in order. What an object counts once the process has exited is of no
-- consequence.
unfoldable pub handle_signals : List ℕ → GracefulShutdown × Process → GracefulShutdown × Process
handle_signals [] state = state
handle_signals (signum ∷ later) state = handle_signals later (handle_signal signum state)

-- _on_timeout, if the timer runs out
unfoldable pub on_timeout : GracefulShutdown × Process → GracefulShutdown × Process
on_timeout (self, process) = (self, if is_some self.timer then force_exit process else process)

abbrev set_handler : ℕ → Option SignalHandler → Process → Process
set_handler signum handler process = record process {
  handlers = λ k. if signum == k then handler else process.handlers k;
}

abbrev has_key : ℕ → List (ℕ × Option SignalHandler) → Bool
has_key signum = any (λ (item : ℕ × Option SignalHandler). item.0 == signum)

-- `self._original_handlers[signum] = …`: a key that is there keeps its place.
overwrite :
    ℕ → Option SignalHandler → List (ℕ × Option SignalHandler) → List (ℕ × Option SignalHandler)
overwrite signum handler [] = []
overwrite signum handler ((k, old) ∷ items) =
    (k, if k == signum then handler else old) ∷ overwrite signum handler items

assign :
    ℕ → Option SignalHandler → List (ℕ × Option SignalHandler) → List (ℕ × Option SignalHandler)
unfolding overwrite
assign signum handler items =
    if has_key signum items then overwrite signum handler items else items ++ (signum, handler) ∷ []

-- `accepts` tells the signals for which signal.signal does not raise OSError or ValueError.
module _ (accepts : ℕ → Bool) where
  install_each :
      ℕ
      → List ℕ
      → List (ℕ × Option SignalHandler)
      → Process
      → List (ℕ × Option SignalHandler) × Process
  unfolding assign
  install_each object [] originals process = (originals, process)
  install_each object (signum ∷ signums) originals process =
      let refused = install_each object signums originals process in
      let accepted =
        install_each object signums (assign signum (process.handlers signum) originals)
          (set_handler signum (some (handle_signal_of object)) process) in
      if accepts signum then accepted else refused

  -- install, from the main thread or from another one
  unfoldable pub install : Bool → GracefulShutdown × Process → GracefulShutdown × Process
  unfolding install_each
  install main_thread (self, process) =
      let (originals, process') =
        install_each self.object self.signals self.original_handlers process in
      if self.installed || not main_thread
      then (self, process)
      else (record self { original_handlers = originals; installed = nonempty originals }, process')

  uninstall_each : List (ℕ × Option SignalHandler) → Process → Process
  uninstall_each [] process = process
  uninstall_each ((signum, handler) ∷ items) process = uninstall_each items (
      if accepts signum
      then set_handler signum (some (or_else handler sig_dfl)) process
      else process)

  unfoldable pub uninstall : GracefulShutdown × Process → GracefulShutdown × Process
  unfolding uninstall_each cancel_timer
  uninstall (self, process) = (
    cancel_timer (record self { original_handlers = []; installed = false }),
    uninstall_each self.original_handlers process,
  )

  -- __enter__ and __exit__
  unfoldable pub enter : Bool → GracefulShutdown × Process → GracefulShutdown × Process
  unfolding install
  enter main_thread (self, process) = install main_thread (
    record self { previous_active = process.active_shutdown },
    record process { active_shutdown = some self.object },
  )

  unfoldable pub exit : GracefulShutdown × Process → GracefulShutdown × Process
  unfolding uninstall
  exit state =
      let (self, process) = uninstall state in
      (
        record self { previous_active = none },
        record process { active_shutdown = self.previous_active },
      )

-- is_shutdown_requested; `is_set` tells of each object whether its event is set.
unfoldable pub is_shutdown_requested : (ℕ → Bool) → Process → Bool
is_shutdown_requested is_set process = elim process.active_shutdown [
  | none ↦ false
  | some shutdown ↦ is_set shutdown
]
