-- ===== src/Graph/Specialists/Laws.antt =====
-- What routing a tool call to its specialist leaves.
use agentic_workflows.Base.{String, Bool, true, false, none, some}
use agentic_workflows.Routing.Directives.{specialist_of}

is_known : String → Bool
unfolding specialist_of
is_known name = elim (specialist_of name) [ none ↦ false | some s ↦ true ]
