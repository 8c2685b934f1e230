-- ===== src/Broker.antt =====
-- pkg/triggermesh/components/broker: the broker's configuration file, and triggers.
pub mod Config
pub mod Trigger
pub mod Container
