-- ===== src/Engine.antt =====
-- The workflow engine (packages/engine): its results, its graphs, and the executor that visits the
-- nodes of a workflow in topological order.
pub mod Steps
pub mod Services
pub mod Branches
pub mod Outputs
pub mod Run
pub mod Streaming
pub mod Loops
pub mod Graph
