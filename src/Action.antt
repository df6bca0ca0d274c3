-- ===== src/Action.antt =====
-- packages/publish-action: what the action reports.
pub mod Outcome
pub mod DeployLocalDirectory
