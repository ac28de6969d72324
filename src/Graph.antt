-- ===== src/Graph.antt =====
-- The intelligence graph: database/repositories/relationships.py, the traversal of
-- intelligence/relationships/graph.py and the merge of intelligence/entity_resolution/resolver.py.
pub mod Refs
pub mod Edges
pub mod Observed
pub mod Merge
pub mod Neighbours
pub mod Merged
pub mod Twins
pub mod Traversal
pub mod View
pub mod Reach
pub mod Subgraph
mod Tests
