-- ===== src/Kernel.antt =====
-- packages/publish-kernel: the ten duties and their composition for each lifecycle stage.
pub mod ArtifactIdentity
pub mod DestinationAuthority
pub mod BoundedResources
pub mod Fencing
pub mod Activation
pub mod Outcome
pub mod Retention
pub mod Containment
pub mod Secrets
pub mod Marker
pub mod Stages
pub mod DecisionFields
pub mod CapabilityDecision
