-- ===== src/Graph.antt =====
-- The graph of the multi-step orchestrator: the store of its checkpoints
-- (orchestration/langgraph/checkpoint_store.py) and the guards and small nodes of graph.py.
pub mod Checkpoints
pub mod Guards
pub mod Finish
pub mod Specialists
pub mod MemoPolicy
pub mod Execute
pub mod Samples
