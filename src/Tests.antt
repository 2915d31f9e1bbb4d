-- ===== src/Tests.antt =====
-- A small disk, and the theorems' hypotheses and statements on it.
pub mod Toy
pub mod Paths
pub mod Files
pub mod Requests
pub mod Starts
pub mod Builds
pub mod Budgeting
pub mod Proc
pub mod Runs
