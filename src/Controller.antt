-- ===== src/Controller.antt =====
-- internal: the `bop` controller behind the console's `fetch`. Its children are the parts that answer the
-- console's requests and make what the answers show: the inventory, the queue, the metadata, the job pipeline.
pub mod Core
mod Tests
pub mod Pipeline
pub mod Inventory
pub mod RunJob
pub mod Metadata
pub mod Handlers
pub mod Access
pub mod Settings
pub mod Queue
pub mod Site
