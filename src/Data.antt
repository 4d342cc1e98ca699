-- ===== src/Data.antt =====
-- data.c: dispatch data objects.
mod Defs
mod Bytes
pub mod Access
pub mod Regions
pub mod CopyRegion
pub mod Examples
pub mod Concat
pub mod Subrange
pub mod Mapping
unfoldable pub use Defs.*
unfoldable pub use Bytes.*
