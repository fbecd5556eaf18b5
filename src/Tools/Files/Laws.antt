-- ===== src/Tools/Files/Laws.antt =====
-- When write_file acts on the world outside.
use agentic_workflows.Base.{
  ℕ, String, ◌≡◌, ap, ◌⊎◌, inl, inr, Bool, true, false, not, ◌&&◌, ◌||◌, Option, none, some, arith,
  leb, eqb, Option-cases,
}
use agentic_workflows.Base.Int.{ℤ, pos, clip}
use agentic_workflows.Base.Text.{empty, lstrip, startswith}
use agentic_workflows.Values.{str}
use agentic_workflows.Tools.{Answer, max_bytes, check_content_size}
use agentic_workflows.Tools.Laws.{is_some, in_sandbox, validate-in_sandbox}
use agentic_workflows.Tools.Files.{Os, endswith, shebang_error, guards, put_file, write_file}

-- Whether a content of so many bytes is under the cap that the environment sets, if it sets one.
abbrev fits_cap : ℕ → Option ℤ → Bool
fits_cap bytes none = false
fits_cap bytes (some z) = eqb (clip z) 0 || leb bytes (clip z)

abbrev pub fits : (String → Option String) → ℕ → Bool
fits getenv bytes = fits_cap bytes (max_bytes getenv "P1_WRITE_FILE_MAX_BYTES" (pos 0))

fits-check :
    (getenv : String → Option String) (bytes : ℕ)
    → is_some (check_content_size getenv bytes "P1_WRITE_FILE_MAX_BYTES" (pos 0))
      ≡ not (fits getenv bytes)
unfolding check_content_size
fits-check getenv bytes = elim (Option-cases (max_bytes getenv "P1_WRITE_FILE_MAX_BYTES" (pos 0))) [
  | inl e ↦ ground arith
  | inr (z, e) ↦ ground arith
]

-- A shell script starts with `#!`, after white space.
abbrev pub has_shebang : String → String → Bool
has_shebang path content =
    not (endswith path ".sh" || endswith path ".bash") || startswith (lstrip content) "#!"

shebang-error :
    (path content : String) → is_some (shebang_error path content) ≡ not (has_shebang path content)
unfolding shebang_error
shebang-error path content = ground arith

module _ {W : Type 0} (os : Os W) (byte_length : String → ℕ) where
  -- Whether a write of the content to the path may be done.
  abbrev pub may_write : String → String → Bool
  may_write path content =
      not (empty path)
      && not (empty content)
      && fits os.getenv (byte_length content)
      && in_sandbox os.getenv os.resolve (str path)
      && has_shebang path content

  guards-may_write :
      (path content : String)
      → is_some (guards os byte_length path content) ≡ not (may_write path content)
  unfolding guards
  guards-may_write path content = ground (
    arith,
    fits-check os.getenv (byte_length content),
    validate-in_sandbox os.getenv os.resolve (str path),
    shebang-error path content,
  )

  -- write_file acts on the world only for a path and a content that are not empty, with a content
  -- under the cap, a path inside the sandbox and, for a shell script, a shebang; the file is then put.
  -- In every other case the world is left as it was.
  pub write_file_lem :
      (path content : String) (world : W)
      → ((may_write path content ≡ true)
          × (write_file os byte_length path content world
              ≡ put_file os byte_length path content world))
        ⊎ ((may_write path content ≡ false)
            × ((write_file os byte_length path content world).1 ≡ world))
  unfolding write_file
  write_file_lem path content world = elim (Option-cases (guards os byte_length path content)) [
    | inl e ↦ inl (
      ground (arith, guards-may_write path content),
      ap
          (λ o. elim o as (λ x. Answer × W) [
            | some answer ↦ (answer, world)
            | none ↦ put_file os byte_length path content world
          ])
          e,
    )
    | inr (answer, e) ↦ inr (ground (arith, guards-may_write path content), ground arith)
  ]
