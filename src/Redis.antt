-- ===== src/Redis.antt =====
-- The Redis server, which is not part of the package, as far as the package uses it.
mod Commands
mod Interface
mod Execute
pub mod Memory
pub use Commands.*
pub use Execute.*
pub use Interface.{Server, hget}
unfoldable pub use Interface.{execute}
