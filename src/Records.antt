-- ===== src/Records.antt =====
-- The records that the parts of the program exchange, one child for each part.
pub mod Entries
pub mod Tokens
pub mod Policies
pub mod Requests
pub mod Agents
pub mod Rules
pub mod Sessions
pub use Entries.*
pub use Tokens.*
pub use Policies.*
pub use Requests.*
pub use Agents.*
pub use Rules.*
pub use Sessions.*
