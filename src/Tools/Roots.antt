-- ===== src/Tools/Roots.antt =====
-- tools/_security.py: the working directory that bounds the file tools, and the domains that may be
-- asked. How a path is resolved and the parse of an address are parameters.
pub mod Laws
pub mod Samples
use Prim.Native.String.{◌++◌}
use agentic_workflows.Base.{String, Option, none, some, List, map, if◌then◌else◌, get_or, contains}
use agentic_workflows.Base.Text.{empty, lower}
use agentic_workflows.Values.{Value, str, Fields}
use agentic_workflows.Tools.{Answer, returned, raised, error_of, setting, listed, leads}

-- Where a path is, the answer that refuses it, or the exception that leaves the check.
pub data Located : Type 0 where
  at : List String → Located
  refused : Fields → Located
  escaped : Located

module _ (getenv : String → Option String) where
  module _ (resolve : Value → Option (List String)) (cwd : Option (List String)) where
    -- The parts of the root, or nothing when its resolution raises.
    unfoldable pub effective_root : Option (List String)
    effective_root =
        let agent_root = setting getenv "AGENT_ROOT" in
        let agent_workdir = setting getenv "AGENT_WORKDIR" in
        if empty agent_root
        then (if empty agent_workdir then cwd else resolve (str agent_workdir))
        else resolve (str agent_root)

    located : String → List String → Option (List String) → Located
    located path root none = refused (error_of ("invalid path: " ++ path))
    located path root (some target) =
        if leads root target
        then at target
        else refused (error_of ("path outside working directory: " ++ path))

    unfoldable pub validate_path_within_cwd : String → Located
    unfolding located
    validate_path_within_cwd path =
        if empty path then refused (error_of "path is required") else elim effective_root [
          | none ↦ escaped
          | some root ↦ located path root (resolve (str path))
        ]

  -- `hostname` is that of the parsed address; nothing when the parse raises.
  unfoldable pub check_http_domain : (String → Option (Option String)) → String → Option Answer
  unfolding lower listed
  check_http_domain hostname url =
      let allowed_raw = setting getenv "P1_HTTP_ALLOWED_DOMAINS" in
      if empty allowed_raw then none else elim (hostname url) [
        | none ↦ some (raised "ValueError")
        | some host ↦
            if contains (map lower (listed getenv allowed_raw)) (lower (get_or "" host))
            then none
            else some (returned (error_of ("domain not in allowlist: " ++ lower (get_or "" host))))
      ]
