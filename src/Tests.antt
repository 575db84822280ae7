-- ===== src/Tests.antt =====
-- Concrete runs, on a small server in the place of the client library.
pub mod Toy
pub mod WriteRuns
pub mod ReadRuns
pub mod SyncRuns
pub mod ClusterRuns
pub mod SchemaRuns
pub mod CopyRuns
pub mod StartRuns
pub mod ActionRuns
pub mod CommandRuns
pub mod CopiedRuns
pub mod TotalRuns
pub mod RecoveryRuns
pub mod WebRuns
pub mod BuildRuns
