-- ===== src/Tools/Roots/Samples.antt =====
-- A path and an address that are let through.
use agentic_workflows.Base.{
  String, ◌≡◌, refl, Option, none, some, List, [], ◌∷◌, if◌then◌else◌, ◌==◌, contains,
}
use agentic_workflows.Base.Text.{split}
use agentic_workflows.Values.{Value, to_str}
use agentic_workflows.Tools.{setting, leads}
use agentic_workflows.Tools.Roots.{at, effective_root, validate_path_within_cwd, check_http_domain}

abbrev env : String → Option String
env name =
    if name == "AGENT_WORKDIR"
    then some "/app"
    else if name == "P1_HTTP_ALLOWED_DOMAINS"
    then some "api.github.com, Example.org"
    else none

abbrev parts_of : Value → Option (List String)
parts_of v = some (split "/" (to_str v))

inside_test : validate_path_within_cwd env parts_of none "/app/a" ≡ at ("" ∷ "app" ∷ "a" ∷ [])
unfolding validate_path_within_cwd effective_root setting leads split to_str
inside_test = refl

domain_test :
    check_http_domain env (λ url. some (some "EXAMPLE.org")) "https://EXAMPLE.org/x" ≡ none
unfolding check_http_domain setting contains
domain_test = refl
