-- ===== src/Protocol.antt =====
-- packages/adapter-protocol: what an adapter and its callers share.
pub mod Errors
pub mod StableId
pub mod Uuid
pub mod Fence
pub mod Digest
pub mod ArtifactDigest
pub mod Vocabulary
pub mod Capability
pub mod Negotiation
pub mod Lifecycle
pub mod Loader
pub mod Limits
pub mod DigestString
pub mod FrameErrors
pub mod Frame
