-- ===== src/Session.antt =====
-- tensorrt/src/session.rs, with its modules session/plan.rs and session/select.rs.
mod State
mod Lookup
mod Validate
mod Shapes
mod Pool
mod Staging
mod Bind
mod Run
mod Plan
mod Graph
mod AutoGraph
pub mod Select
pub mod Index
pub mod ShapeCheck
pub mod DeviceCheck
pub mod PlanCache
pub mod CleanContext
pub mod PooledContext
pub mod ShapeCache
pub mod StaleShapes
pub mod ReclaimLoop
pub mod Reclaim
pub mod Backoff
pub mod GraphCache
pub mod GraphBound
unfoldable pub use State.*
unfoldable pub use Lookup.*
unfoldable pub use Validate.*
unfoldable pub use Shapes.*
unfoldable pub use Pool.*
unfoldable pub use Staging.*
unfoldable pub use Bind.*
unfoldable pub use Run.*
unfoldable pub use Plan.*
unfoldable pub use Graph.*
unfoldable pub use AutoGraph.*
