-- ===== src/Api.antt =====
-- The objects that the controllers read and write, the library functions that they call on them,
-- and the servers that they talk to. Each is in a child, whose names this module passes on.
mod Types
mod Library
mod Server
mod Bootstrap
mod Management
pub use Types.*
pub use Library.*
pub use Server.*
pub use Bootstrap.*
pub use Management.*
unfoldable pub use Server.{perform, query}
unfoldable pub use Management.{ask, tell, decide}
