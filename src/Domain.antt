-- ===== src/Domain.antt =====
-- internal/domain: the types that every layer shares.
mod Names
mod Values
mod Cases
mod Learning
mod Channels
mod Confidence
mod Hash
unfoldable pub use Names.*
unfoldable pub use Values.*
unfoldable pub use Cases.*
unfoldable pub use Learning.*
unfoldable pub use Channels.*
unfoldable pub use Confidence.*
unfoldable pub use Hash.*
