-- ===== src/Parsing/Keywords.antt =====
-- orchestration/langgraph/mission_parser.py: the tools that a word of a mission suggests.
use agentic_workflows.Base.{String, List, ◌∷◌, []}

-- _TOOL_KEYWORD_MAP, in its order
abbrev pub tool_keyword_map : List (String × List String)
tool_keyword_map =
    ("sort", "sort_array" ∷ [])
    ∷ ("order", "sort_array" ∷ [])
    ∷ ("ascending", "sort_array" ∷ [])
    ∷ ("descending", "sort_array" ∷ [])
    ∷ ("repeat", "repeat_message" ∷ [])
    ∷ ("echo", "repeat_message" ∷ [])
    ∷ ("uppercase", "string_ops" ∷ [])
    ∷ ("lowercase", "string_ops" ∷ [])
    ∷ ("reverse", "string_ops" ∷ [])
    ∷ ("trim", "string_ops" ∷ [])
    ∷ ("replace", "string_ops" ∷ [])
    ∷ ("split", "string_ops" ∷ [])
    ∷ ("read", "read_file_chunk" ∷ [])
    ∷ ("read_file", "read_file_chunk" ∷ [])
    ∷ ("write", "write_file" ∷ [])
    ∷ ("write_file", "write_file" ∷ [])
    ∷ ("save", "write_file" ∷ [])
    ∷ ("fibonacci", "write_file" ∷ "math_stats" ∷ [])
    ∷ ("mean", "math_stats" ∷ [])
    ∷ ("median", "math_stats" ∷ [])
    ∷ ("sum", "math_stats" ∷ [])
    ∷ ("add", "math_stats" ∷ [])
    ∷ ("subtract", "math_stats" ∷ [])
    ∷ ("multiply", "math_stats" ∷ [])
    ∷ ("divide", "math_stats" ∷ [])
    ∷ ("math", "math_stats" ∷ [])
    ∷ ("calculate", "math_stats" ∷ [])
    ∷ ("memoize", "memoize" ∷ [])
    ∷ ("memo", "memoize" ∷ [])
    ∷ ("retrieve", "retrieve_memo" ∷ [])
    ∷ ("analyze", "text_analysis" ∷ "data_analysis" ∷ [])
    ∷ ("analysis", "text_analysis" ∷ "data_analysis" ∷ [])
    ∷ ("word_count", "text_analysis" ∷ [])
    ∷ ("sentence_count", "text_analysis" ∷ [])
    ∷ ("key_terms", "text_analysis" ∷ [])
    ∷ ("complexity", "text_analysis" ∷ [])
    ∷ ("statistics", "data_analysis" ∷ [])
    ∷ ("stats", "data_analysis" ∷ [])
    ∷ ("outlier", "data_analysis" ∷ [])
    ∷ ("percentile", "data_analysis" ∷ [])
    ∷ ("distribution", "data_analysis" ∷ [])
    ∷ ("z_score", "data_analysis" ∷ [])
    ∷ ("normalize", "data_analysis" ∷ [])
    ∷ ("correlation", "data_analysis" ∷ [])
    ∷ ("json", "json_parser" ∷ [])
    ∷ ("parse", "json_parser" ∷ [])
    ∷ ("validate", "json_parser" ∷ "validate_data" ∷ [])
    ∷ ("flatten", "json_parser" ∷ [])
    ∷ ("extract_keys", "json_parser" ∷ [])
    ∷ ("regex", "regex_matcher" ∷ [])
    ∷ ("pattern", "regex_matcher" ∷ [])
    ∷ ("match", "regex_matcher" ∷ [])
    ∷ ("find_all", "regex_matcher" ∷ [])
    ∷ ("functions", "outline_code" ∷ [])
    ∷ ("classes", "outline_code" ∷ [])
    ∷ ("imports", "outline_code" ∷ [])
    ∷ ("code", "outline_code" ∷ [])
    ∷ ("schema", "describe_db_schema" ∷ "validate_data" ∷ [])
    ∷ ("database", "describe_db_schema" ∷ [])
    ∷ ("sqlite", "describe_db_schema" ∷ [])
    ∷ ("csv", "describe_db_schema" ∷ "format_converter" ∷ [])
    ∷ ("db", "describe_db_schema" ∷ [])
    ∷ ("list", "list_directory" ∷ [])
    ∷ ("directory", "list_directory" ∷ [])
    ∷ ("ls", "list_directory" ∷ [])
    ∷ ("folder", "list_directory" ∷ [])
    ∷ ("search", "search_files" ∷ "search_content" ∷ [])
    ∷ ("find", "search_files" ∷ "search_content" ∷ [])
    ∷ ("glob", "search_files" ∷ [])
    ∷ ("locate", "search_files" ∷ [])
    ∷ ("grep", "search_content" ∷ [])
    ∷ ("summarize", "summarize_text" ∷ [])
    ∷ ("condense", "summarize_text" ∷ [])
    ∷ ("tldr", "summarize_text" ∷ [])
    ∷ ("compare", "compare_texts" ∷ [])
    ∷ ("diff", "compare_texts" ∷ [])
    ∷ ("difference", "compare_texts" ∷ [])
    ∷ ("similarity", "compare_texts" ∷ [])
    ∷ ("intent", "classify_intent" ∷ [])
    ∷ ("classify", "classify_intent" ∷ [])
    ∷ ("categorize", "classify_intent" ∷ [])
    ∷ ("convert", "format_converter" ∷ [])
    ∷ ("yaml", "format_converter" ∷ [])
    ∷ ("toml", "format_converter" ∷ [])
    ∷ ("ini", "format_converter" ∷ [])
    ∷ ("format", "format_converter" ∷ [])
    ∷ ("copy", "file_manager" ∷ [])
    ∷ ("move", "file_manager" ∷ [])
    ∷ ("rename", "file_manager" ∷ [])
    ∷ ("delete", "file_manager" ∷ [])
    ∷ ("mkdir", "file_manager" ∷ [])
    ∷ ("encode", "encode_decode" ∷ [])
    ∷ ("decode", "encode_decode" ∷ [])
    ∷ ("base64", "encode_decode" ∷ [])
    ∷ ("hex", "encode_decode" ∷ [])
    ∷ ("check", "validate_data" ∷ [])
    ∷ ("verify", "validate_data" ∷ [])
    ∷ ("rule", "validate_data" ∷ [])
    ∷ ("last_run", "retrieve_run_context" ∷ [])
    ∷ ("previous", "retrieve_run_context" ∷ "query_context" ∷ [])
    ∷ ("context", "retrieve_run_context" ∷ [])
    ∷ ("history", "retrieve_run_context" ∷ [])
    ∷ ("create", "write_file" ∷ [])
    ∷ ("make", "write_file" ∷ [])
    ∷ ("generate", "write_file" ∷ [])
    ∷ ("produce", "write_file" ∷ [])
    ∷ ("count", "math_stats" ∷ [])
    ∷ ("tally", "math_stats" ∷ [])
    ∷ ("measure", "math_stats" ∷ [])
    ∷ ("brief", "summarize_text" ∷ [])
    ∷ ("contrast", "compare_texts" ∷ [])
    ∷ ("label", "classify_intent" ∷ [])
    ∷ ("extract", "regex_matcher" ∷ "json_parser" ∷ [])
    ∷ ("prior", "query_context" ∷ [])
    ∷ ("recall", "query_context" ∷ [])
    ∷ ("remember", "query_context" ∷ [])
    ∷ []
