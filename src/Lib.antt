-- ===== src/Lib.antt =====
-- Agentic workflows: a verification of the repository's core.
--
-- The program runs language-model agents on missions. A user's text is split into missions; each gets
-- a contract (the tools and files it needs); a planner asks a model for the next action, a tool call
-- or a finish; tool results are recorded in the reports of the missions, whose status is computed
-- from the contracts; a memo store keeps results between steps and runs; and when the model does not
-- answer, a deterministic fallback plans. An older single-agent loop stands beside it.
--
-- Which file models what (paths from src/agentic_workflows/):
--   Extract        orchestration/langgraph/text_extractor.py, over Regex, a backtracking matcher for
--                  the regular expressions of the source
--   Values         JSON values and dicts, as lists of fields in insertion order
--   Missions       the records of orchestration/langgraph/state_schema.py and mission_parser.py; its
--                  children are the parts of mission_tracker.py: Requirements
--                  (infer_requirements_from_text), Contracts (build_mission_contracts_from_plan,
--                  initialize_mission_reports), Status (refresh_mission_status), Events
--                  (next_incomplete_mission_index, record_mission_tool_event), Attribution
--                  (mission_preview_from_state, resolve_mission_id_for_action) and Progress (the rest)
--   Memo           memo_store.py (Store), policy.py (Policy) and memo_manager.py (Keys)
--   Planner        fallback_planner.py (Fallback and, for normalize_tool_args, Aliases) and the search
--                  for JSON objects of action_parser.py (Objects)
--   Routing        model_router.py (Router), directives.py and, of graph.py,
--                  _select_specialist_for_action and _is_tool_allowed_for_specialist (Directives)
--   Graph          checkpoint_store.py (Checkpoints) and, of graph.py, _enforce_rerun_completion_guard,
--                  _purge_queued_finish_actions, _route_after_plan and _clarify_node (Guards),
--                  _reject_finish_and_recover (Finish), _route_to_specialist with handoff.py
--                  (Specialists), _enforce_memo_policy (MemoPolicy) and _execute_action (Execute: its
--                  guards are in Gate, the lookups before a write in Lookup, the reuse of cached writes
--                  in Cache, the missions' contexts in Contexts, what is kept of a call in Records,
--                  the call itself in Action)
--   Context        context_manager.py: the contexts and their summaries; its children are Artifacts,
--                  Cache, Window (compact, proactive_compact), Completion (on_mission_complete,
--                  on_tool_result, build_specialist_context) and Injection
--                  (build_planner_context_injection)
--   Parsing        mission_parser.py: the words that suggest tools (Keywords), the lines that are steps
--                  (Lines), what is made of the steps (Steps) and the plan as a dict (Plans)
--   Audit          mission_auditor.py: Presence, Counts, Numbers and Outputs are its checks, Report
--                  is audit_run
--   Review         reviewer.py: FailOnlyReviewer, and the mission ids of WeightedReviewer
--   Tools          tools/_security.py; its child Roots has two more of that file's
--                  checks, and Bash, Files and Chunks are tools/run_bash.py, tools/write_file.py and
--                  tools/read_file_chunk.py
--   Validate       content_validator.py, with the check of a pattern report's numbers as a parameter
--   Agent          core/orchestrator.py, core/agent_state.py, errors.py and schemas.py
--   Storage        storage/sqlite.py: the table of runs; Dicts (Python's dict of a value), Runs
--                  (save_run, update_run) and Listing
--                  (list_runs) are its operations; Cursors are the cursors of chunked reads that
--                  storage/mission_context_store.py keeps in memory
--   Base           what the parts share: tests, lists, names, texts and integers
-- Proofs stand in a child `Laws` (or one named for what it proves) of the module they are about, tests and examples in
-- `Samples`.
--
-- How the code's state is kept. A dict with fixed keys is a record, and every key that
-- new_run_state or initialize_mission_reports writes is there; an open dict (arguments, results,
-- flags) is a `Fields`. A function that mutates the state takes it and returns the new one. A set is
-- a list that is read by membership, and sorted and made distinct where the source sorts it. An
-- exception is a value: `Error` in Agent, `index_error` in Planner, `raised` in Graph.Execute, `SqlError` in Storage. An SQL table is its rows, in the
-- order of insertion.
--
-- Parameters: the model, the tools, json.loads and json.dumps, sha256 and the clock. Nothing is assumed
-- of them but what a theorem states as a hypothesis.
--
-- Loops. The steps of the single-agent run are 20, as its `max_steps` says. The search for objects
-- takes the text's length as fuel, and the loop that makes the Fibonacci numbers takes their count;
-- both are proved to be enough. The matcher's stars and the printing of digits take the length of
-- their input and the number as fuel; each round uses up a character or a digit. Everything else is
-- structural.
--
-- Not modelled: letters, digits and white space beyond ASCII; floating-point numbers; log calls; keys
-- that are missing from, or have another type in, a state that the program itself did not make. Of
-- the repository: the graph's nodes of planning and finalizing (and the routing to specialists takes
-- the execution, which has a wider state in Execute, as a parameter), of the parse of a text the continuation lines and the
-- splitting of prose, and what the context manager persists; and the stores of PostgreSQL, providers,
-- HTTP routes, command lines, logging and the tools' bodies but for those of Tools.
pub mod Base
pub mod Regex
pub mod Extract
pub mod Values
pub mod Missions
pub mod Memo
pub mod Agent
pub mod Context
pub mod Routing
pub mod Planner
pub mod Graph
pub mod Tools
pub mod Validate
pub mod Parsing
pub mod Audit
pub mod Review
pub mod Storage
