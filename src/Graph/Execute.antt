-- ===== src/Graph/Execute.antt =====
-- Of orchestration/langgraph/graph.py, the node `_execute_action`: what it reads and writes, and the
-- small steps that its parts share. Lookup, Cache, Contexts, Gate and
-- Records are its parts, Action is the node; Frame has what the parts leave as it was.
pub mod Lookup
pub mod Cache
pub mod Contexts
pub mod Gate
pub mod Records
pub mod Action
pub mod Frame
mod Samples
use Prim.Native.String.{◌++◌ as str_append}
use agentic_workflows.Base.{ℕ, suc, String, Option, List, [], ◌∷◌, ◌++◌, if◌then◌else◌, length}
use agentic_workflows.Base.Int.{pos}
use agentic_workflows.Base.Text.{empty, print_nat}
use agentic_workflows.Values.{Value, int, str, Fields, end, field, get, put}
use agentic_workflows.Missions.{RunState}
use agentic_workflows.Missions.Progress.{progress_hint_message}
use agentic_workflows.Memo.Store.{MemoStore}
use agentic_workflows.Storage.Cursors.{Cursors}
use agentic_workflows.Context.{MissionContext}
use agentic_workflows.Context.Window.{push_trace}
use agentic_workflows.Graph.Checkpoints.{CheckpointStore, save}
use agentic_workflows.Graph.Finish.{get_count}

infixr 65 ◌+++◌
abbrev pub ◌+++◌ : String → String → String
◌+++◌ = str_append

pub record MemoEvent : Type 0 where
  pub key : String
  pub namespace : String
  pub source_tool : String
  pub step : ℕ
  pub value_hash : String
  pub created_at : String

-- The state of a run with what the node reaches beside it: the stores, and the world of the tools.
pub record Session (W : Type 0) : Type 0 where
  pub run : RunState
  pub active_specialist : String
  pub tool_call_counts : Fields
  pub memo_events : List MemoEvent
  pub mission_contexts : List (ℕ × MissionContext)
  pub pipeline_trace : List Fields
  pub memos : MemoStore
  pub checkpoints : CheckpointStore
  pub cursors : Option Cursors
  pub world : W

-- What a tool's call gives: its result, or the exception that leaves it, and what it changed.
pub data Called (W : Type 0) : Type 0 where
  gave : Fields → MemoStore → W → Called W
  crashed : String → Called W

-- How the node ends.
pub data Step (W : Type 0) : Type 0 where
  done : Session W → Step W
  raised : String → Step W

infixl 5 ◌>>=◌
abbrev pub ◌>>=◌ : {W : Type 0} → Step W → (Session W → Step W) → Step W
done s >>= f = f s
raised e >>= f = raised e

-- The tools of the registry, the clock, json and sha256, and the check of pattern reports.
pub record Env (W : Type 0) : Type 0 where
  pub tools : List String
  pub call : String → Fields → MemoStore → W → Called W
  pub dumps : Value → String
  pub sorted_dumps : Fields → String
  pub loads : String → Value
  pub sha256 : String → String
  pub now : String
  pub pattern_error : String → Option String
  pub dump_state : Session W → String
  pub load_state : String → Session W

unfoldable pub say : String → RunState → RunState
say text run = record run {
  messages = run.messages ++ record { role = "system"; content = text } ∷ [];
}

unfoldable pub progress_hint : RunState → String
progress_hint run =
    let hint = progress_hint_message run in
    if empty hint
    then "Continue with the next task or finish when all tasks are complete."
    else hint

unfoldable pub result_message : ℕ → String → String → String → String
result_message call_number tool result hint =
    "TOOL_RESULT #"
    +++ print_nat call_number
    +++ " ("
    +++ tool
    +++ "): "
    +++ result
    +++ "\n"
    +++ hint

module _ {W : Type 0} where
  abbrev pub with_run : RunState → Session W → Session W
  with_run run s = record s { run = run }

  abbrev pub with_pending : Option Fields → Session W → Session W
  with_pending action s = record s { run = record s.run { pending_action = action } }

  -- The count of a kind of retry, one higher.
  unfoldable pub count_retry : String → Session W → Session W
  count_retry kind s = record s {
    run = record s.run {
      retry_counts =
          put kind (int (pos (suc (get_count kind s.run.retry_counts)))) s.run.retry_counts;
    };
  }

  unfoldable pub count_flag : String → Session W → Session W
  count_flag name s = record s {
    run = record s.run {
      policy_flags =
          put name (int (pos (suc (get_count name s.run.policy_flags)))) s.run.policy_flags;
    };
  }

  -- _emit_trace
  unfoldable pub emit_trace : String → Fields → Session W → Session W
  emit_trace stage fields s = record s {
    pipeline_trace =
        push_trace (field "stage" (str stage) (field "step" (int (pos s.run.step)) fields))
          s.pipeline_trace;
  }

  unfoldable pub remember : MemoEvent → Session W → Session W
  remember event s = record s { memo_events = s.memo_events ++ event ∷ [] }

  -- The call in the counts and in the history, where it has the next number.
  unfoldable pub log_call : String → Fields → Fields → Session W → Session W
  log_call tool args result s = record s {
    tool_call_counts =
        put tool (int (pos (suc (get_count tool s.tool_call_counts)))) s.tool_call_counts;
    run = record s.run {
      tool_history =
          s.run.tool_history
          ++ record {
            call = suc (length s.run.tool_history);
            tool = tool;
            args = args;
            result = result;
          }
            ∷ [];
    };
  }

  module _ (env : Env W) where
    -- self.checkpoint_store.save
    unfoldable pub checkpoint : String → Session W → Session W
    checkpoint node s = record s {
      checkpoints =
          save env.dump_state env.load_state env.now s.run.run_id s.run.step node s s.checkpoints;
    }

    -- self.tools[tool].execute(args), and then what is done with its result
    unfoldable pub call_tool : String → Fields → (Fields → Session W → Step W) → Session W → Step W
    call_tool tool args next s = elim (env.call tool args s.memos s.world) [
      | gave result memos world ↦ next result (record s { memos = memos; world = world })
      | crashed problem ↦ raised problem
    ]
