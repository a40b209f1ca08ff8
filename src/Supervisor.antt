-- ===== src/Supervisor.antt =====
-- django_tasks_redis/supervisor.py: the processes of `run_redis_tasks --workers N`.
pub mod Arguments
pub mod ExitCodes
pub mod Slots
pub mod Stopping
pub mod Supervised
