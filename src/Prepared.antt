-- ===== src/Prepared.antt =====
-- tensorrt/src/prepared.rs, and `prepare_device` and `prepare_mixed_device` of
-- tensorrt/src/session.rs.
mod Defs
mod State
mod Sessions
pub mod Accepted
pub mod MixedAccepted
unfoldable pub use Defs.*
unfoldable pub use State.*
unfoldable pub use Sessions.*
