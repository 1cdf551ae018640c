-- ===== src/Base.antt =====
-- The names that the other modules share: the libraries', passed on, and those of the children.
mod Tests
mod Lists
mod Names
pub mod Dict
pub mod Sort
pub mod Text
pub mod Distinct
pub mod Int
pub mod Partial
pub use Tests.*
pub use Lists.*
pub use Names.*
