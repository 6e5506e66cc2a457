-- ===== src/Examples.antt =====
-- Concrete rows on which the theorems are applied.
mod Floats
mod Rows
mod Executions
mod Runs
mod Graphs
mod Regions
mod Events
mod Typed
mod Contracts
mod Expressions
