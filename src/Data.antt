-- ===== src/Data.antt =====
-- The data contract of workflow graphs (schemas/workflow_graph.py, services/graph_validation.py).
pub mod Json
pub mod Schema
pub mod Compatible
pub mod Expression
pub mod Typing
pub mod Bindings
