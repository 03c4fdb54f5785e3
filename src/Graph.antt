-- ===== src/Graph.antt =====
-- backend/app/blockchain/protocol_graph: the dependency graph that a scan follows.
mod Models
mod Build
pub mod Nodes
pub mod Edges
pub mod Traversal
pub mod Validator
pub mod Builder
pub mod Tests
pub use Models.*
unfoldable pub use Build.{empty_sets, entry, add_target, build_adjacency_map}
