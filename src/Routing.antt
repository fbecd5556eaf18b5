-- ===== src/Routing.antt =====
-- Who does what: the model router (orchestration/langgraph/model_router.py), the specialists' tool
-- scopes (directives.py) and the choice of a specialist (graph.py).
pub mod Router
pub mod Directives
pub mod Laws
pub mod Samples
