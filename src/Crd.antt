-- ===== src/Crd.antt =====
-- pkg/triggermesh/crd: the custom resource definitions, their schemas, and how a spec is brought into
-- the form that its schema asks for. Downloading them is not here.
pub mod Schema
pub mod Process
pub mod Secrets
pub mod Objects
pub mod Completion
