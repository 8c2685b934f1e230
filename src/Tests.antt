-- ===== src/Tests.antt =====
-- The theorems at concrete inputs, and runs of the definitions.
pub mod Samples
pub mod Manifests
pub mod Triggers
pub mod Deletions
pub mod Adapters
pub mod Editor
pub mod Brokers
pub mod Commands
pub mod Containers
pub mod Parts
pub mod Imports
pub mod Views
pub mod Watching
pub mod Compose
