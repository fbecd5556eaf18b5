-- ===== src/Audit/Presence.antt =====
-- orchestration/langgraph/mission_auditor.py: `_check_tool_presence`, the words of a mission that imply
-- a tool which was not used.
use agentic_workflows.Base.{
  String, Bool, false, not, ◌&&◌, ◌||◌, Option, none, some, List, [], ◌∷◌, if◌then◌else◌, any,
  contains, sorted, subset,
}
use agentic_workflows.Base.Text.{lower, contains_text}
use agentic_workflows.Regex.{found}
use agentic_workflows.Regex.Patterns.{word}
use agentic_workflows.Missions.{MissionReport}
use agentic_workflows.Parsing.Keywords.{tool_keyword_map}
use agentic_workflows.Audit.{Level, AuditFinding, finding, names_text}

abbrev always_noisy : List String
always_noisy = "order" ∷ "stats" ∷ "count" ∷ []

abbrev context_keywords : List String
context_keywords = "analysis" ∷ "analyze" ∷ []

keyword_present : String → String → Bool
unfolding found word
keyword_present keyword text = found (word keyword) text

has_explicit_tool_name : String → List String → Bool
unfolding any contains_text
has_explicit_tool_name text tool_group = any (λ tool. contains_text text tool) tool_group

-- Whether a keyword counts for this text, in small letters.
keyword_counts : String → String → List String → Bool
unfolding contains has_explicit_tool_name keyword_present
keyword_counts text keyword tool_group =
    not (contains always_noisy keyword)
    && (not (contains context_keywords keyword) || has_explicit_tool_name text tool_group)
    && keyword_present keyword text

-- Groups are compared as sets.
same_group : List String → List String → Bool
unfolding subset
same_group a b = subset a b && subset b a

unavailable : Option (List String) → List String → Bool
unfolding any contains
unavailable none tool_group = false
unavailable (some allowed_tools) tool_group = not (any (contains allowed_tools) tool_group)

unused : List String → List String → Bool
unfolding any contains
unused used_tools tool_group = not (any (contains used_tools) tool_group)

presence_finding : MissionReport → List String → AuditFinding
unfolding names_text sorted
presence_finding r tool_group =
    finding r Level.warn "tool_presence"
      ("Mission implies one of " ∷ names_text (sorted tool_group) ∷ " but none were used." ∷ [])

-- The findings of these entries of the map, behind those whose groups were checked.
presence_from :
    Option (List String)
    → MissionReport
    → List (List String)
    → List (String × List String)
    → List AuditFinding
unfolding any same_group keyword_counts unavailable unused presence_finding lower
presence_from allowed_tools r checked_groups [] = []
presence_from allowed_tools r checked_groups ((keyword, tool_group) ∷ entries) =
    let skipped = presence_from allowed_tools r checked_groups entries in
    let rest = presence_from allowed_tools r (tool_group ∷ checked_groups) entries in
    if not (keyword_counts (lower r.mission) keyword tool_group)
      || any (same_group tool_group) checked_groups
    then skipped
    else if unavailable allowed_tools tool_group
    then rest
    else if unused r.used_tools tool_group
    then presence_finding r tool_group ∷ rest
    else rest

unfoldable pub check_tool_presence : Option (List String) → MissionReport → List AuditFinding
unfolding presence_from
check_tool_presence allowed_tools r = presence_from allowed_tools r [] tool_keyword_map
