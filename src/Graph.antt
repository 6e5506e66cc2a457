-- ===== src/Graph.antt =====
-- The validation of workflow graphs (services/graph_validation.py, services/parallel_graph.py).
pub mod Order
pub mod Contract
pub mod Region
pub mod Quality
pub mod Branches
pub mod Validation
