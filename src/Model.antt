-- ===== src/Model.antt =====
-- The vocabulary that Master and Worker share: statuses, messages, task rows, the stores, and the
-- actions that read and write them.
mod Statuses
mod Values
pub mod Dicts
mod Rows
mod Stores
mod Effects
pub mod Frame
pub mod Post
pub use Statuses.*
pub use Values.*
pub use Rows.*
pub use Stores.*
unfoldable pub use Effects.*
