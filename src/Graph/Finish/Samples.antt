-- ===== src/Graph/Finish/Samples.antt =====
-- A run whose planner asks to finish while a mission is open.
use agentic_workflows.Base.{String, ◌≡◌, refl, arith, difference}
use agentic_workflows.Values.{obj, Fields, to_str}
use agentic_workflows.Missions.{RunState}
use agentic_workflows.Missions.Samples.{two_missions}
use agentic_workflows.Planner.Fallback.{finish_action}
use agentic_workflows.Graph.Checkpoints.{CheckpointStore, no_checkpoints}
use agentic_workflows.Graph.Guards.{Node, route_after_plan}
use agentic_workflows.Graph.Finish.{Step, returned, raised, reject_finish_and_recover}
use agentic_workflows.Graph.Finish.Laws.{Rejections, start, reject, Rejections-finish}

abbrev args_json : Fields → String
args_json args = to_str (obj args)

abbrev dumps : RunState → String
dumps s = s.run_id

abbrev loads : String → RunState
loads text = record two_missions { run_id = text }

-- The state that a step returns, or this one where it raises.
abbrev state_after : RunState → Step → RunState
state_after state raised = state
state_after state (returned u store) = u

abbrev store_after : Step → CheckpointStore
store_after raised = no_checkpoints
store_after (returned u store) = store

-- One rejection is allowed.
abbrev rejected_once : Step
rejected_once =
    reject_finish_and_recover args_json dumps loads "now" 1 (finish_action "Done.") "model"
      two_missions no_checkpoints

abbrev open_state : RunState
open_state = state_after two_missions rejected_once

abbrev rejected_twice : Step
rejected_twice =
    reject_finish_and_recover args_json dumps loads "now" 1 (finish_action "Done.") "model"
      open_state (store_after rejected_once)

once_returned : rejected_once ≡ returned open_state (store_after rejected_once)
unfolding reject_finish_and_recover agentic_workflows.Missions.Events.next_incomplete_mission_index
    difference
once_returned = refl

twice_returned :
    rejected_twice ≡ returned (state_after open_state rejected_twice) (store_after rejected_twice)
unfolding reject_finish_and_recover agentic_workflows.Missions.Events.next_incomplete_mission_index
    difference
twice_returned = refl

one_rejection : Rejections args_json dumps loads "now" 1 two_missions 1 open_state
one_rejection =
    reject (finish_action "Done.") "model" no_checkpoints (store_after rejected_once) start
      once_returned

Rejections-finish_example : route_after_plan (state_after open_state rejected_twice) ≡ Node.finish
Rejections-finish_example =
    Rejections-finish args_json dumps loads "now" 1 1 two_missions open_state
      (state_after open_state rejected_twice) (finish_action "Done.") "model"
      (store_after rejected_once) (store_after rejected_twice) one_rejection (omega arith)
      twice_returned
