-- ===== src/Concurrency.antt =====
-- pkg/concurrency: the locks of transactions and the search for deadlocks.
pub mod Graph
pub mod Resource
pub mod Manager
pub mod Handlers
pub mod Effects
pub mod Granted
pub mod Commands
