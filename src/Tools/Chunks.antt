-- ===== src/Tools/Chunks.antt =====
-- tools/read_file_chunk.py: a file read in chunks of lines. The file system is an interface.
pub mod Laws
use Prim.Native.Char.{code}
use Prim.Native.String.{◌++◌ as str_append}
use agentic_workflows.Base.{
  ℕ, ◌+◌, String, Bool, not, ◌&&◌, ◌||◌, Option, none, some, List, [], ◌∷◌, if◌then◌else◌, ltb, leb,
  eqb, max, length, take, drop,
}
use agentic_workflows.Base.Int.{ℤ, pos, clip}
use agentic_workflows.Base.Text.{empty, strip, startswith, join, cons_head}
use agentic_workflows.Values.{Value, null, bool, int, str, Fields, end, field, get, get_str}
use agentic_workflows.Tools.{
  Answer, returned, raised, error_of, int_of, validate_path_within_sandbox,
}

-- What `path.read_text(encoding="utf-8")` gives.
pub data Contents : Type 0 where
  text : String → Contents
  os_error : String → Contents
  undecodable : Contents

-- The file system that the tool reads.
pub record Disk : Type 0 where
  pub getenv : String → Option String
  pub resolve : Value → Option (List String)
  pub exists : String → Bool
  pub is_file : String → Bool
  pub read_text : String → Contents

line_break : ℕ → Bool
line_break n =
    (leb 10 n && leb n 13) || (leb 28 n && leb n 30) || eqb n 133 || eqb n 8232 || eqb n 8233

-- s.splitlines(keepends=True): a carriage return and the line feed behind it are one end.
unfoldable pub split_lines : String → List String
unfolding line_break startswith cons_head
split_lines String.[] = []
split_lines (String.◌∷◌ c s) =
    let lines = split_lines s in
    if line_break (code c) && not (eqb (code c) 13 && startswith s "\n")
    then String.◌∷◌ c "" ∷ lines
    else cons_head c lines

pub record Chunk : Type 0 where
  pub content : String
  pub offset : ℕ
  pub lines_returned : ℕ
  pub total_lines : ℕ
  pub has_more : Bool
  pub next_offset : Option ℕ

unfoldable pub read_chunk : List String → ℕ → ℕ → Chunk
unfolding drop join
read_chunk all_lines offset limit =
    let total_lines = length all_lines in
    let chunk = take limit (drop offset all_lines) in
    let last = offset + length chunk in
    let has_more = ltb last total_lines in
    record {
      content = join "" chunk;
      offset = offset;
      lines_returned = length chunk;
      total_lines = total_lines;
      has_more = has_more;
      next_offset = if has_more then some last else none;
    }

unfoldable pub chunk_dict : String → Chunk → Fields
chunk_dict path chunk = field "path" (str path) (
    field "content" (str chunk.content) (
      field "offset" (int (pos chunk.offset)) (
        field "lines_returned" (int (pos chunk.lines_returned)) (
          field "total_lines" (int (pos chunk.total_lines)) (
            field "has_more" (bool chunk.has_more)
              (field "next_offset" (optional chunk.next_offset) end))))))
  where
    optional : Option ℕ → Value
    optional none = null
    optional (some n) = int (pos n)

module _ (disk : Disk) where
  chunk_from : String → ℕ → ℕ → Contents → Answer
  unfolding split_lines read_chunk chunk_dict
  chunk_from path offset limit (text contents) =
      returned (chunk_dict path (read_chunk (split_lines contents) offset limit))
  chunk_from path offset limit (os_error message) =
      returned (field "error" (str message) (field "path" (str path) end))
  chunk_from path offset limit undecodable = raised "UnicodeDecodeError"

  chunk_at : String → Option ℤ → Option ℤ → Answer
  unfolding chunk_from
  chunk_at path (some offset) (some limit) =
      chunk_from path (clip offset) (max 1 (clip limit)) (disk.read_text path)
  chunk_at path offset limit = returned (error_of "offset and limit must be integers")

  unfoldable pub read_file_chunk : Fields → Answer
  unfolding get get_str strip int_of chunk_at
  read_file_chunk args =
      let path = strip (get_str "" "path" args) in
      if empty path
      then returned (error_of "path is required")
      else elim (validate_path_within_sandbox disk.getenv disk.resolve (str path)) [
        | some err ↦ returned err
        | none ↦
            if not (disk.exists path)
            then returned (
                field "error" (str (str_append "file not found: " path))
                  (field "path" (str path) end))
            else if not (disk.is_file path)
            then returned
                (field "error" (str (str_append "not a file: " path)) (field "path" (str path) end))
            else chunk_at path (int_of (pos 0) (get "offset" args))
                (int_of (pos 150) (get "limit" args))
      ]
