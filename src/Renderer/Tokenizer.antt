-- ===== src/Renderer/Tokenizer.antt =====
-- packages/compiler/src/tokenizer-port.ts. What a tokenizer answers is not the repository's: it is a
-- parameter, and may be anything that JavaScript lets a call do.
use ctxalloc.Shared.{ℕ, List, [], ◌∷◌, ◌++◌, Text, leb, if◌then◌else◌}
use ctxalloc.Domain.Unicode.{is_blank}

-- A call of `countTokens` throws, which is described by a text, returns a non-negative integer, or
-- returns another value, which is printed.
pub data Answer : Type 0 where
  thrown : Text → Answer
  number : ℕ → Answer
  other : Text → Answer

pub record Tokenizer : Type 0 where
  pub id : Text
  pub version : Text
  pub count_tokens : Text → Answer

-- `Number.MAX_SAFE_INTEGER`
abbrev pub max_safe_integer : ℕ
max_safe_integer = 9007199254740991

pub data TokenizerCountResult : Type 0 where
  ok : ℕ → TokenizerCountResult
  threw : Text → TokenizerCountResult
  invalid : Answer → TokenizerCountResult

unfoldable pub check_answer : Answer → TokenizerCountResult
check_answer (thrown message) = threw message
check_answer (number n) = if leb n max_safe_integer then ok n else invalid (number n)
check_answer (other value) = invalid (other value)

unfoldable pub count_tokens_safely : Tokenizer → Text → TokenizerCountResult
unfolding check_answer
count_tokens_safely tokenizer text = check_answer (tokenizer.count_tokens text)

pub data PortIssue : Type 0 where
  blank_id blank_version : PortIssue

-- `collectTokenizerPortIssues`, of a value with the port's shape.
unfoldable pub collect_tokenizer_port_issues : Tokenizer → List PortIssue
collect_tokenizer_port_issues t =
    (if is_blank t.id then blank_id ∷ [] else [])
    ++ (if is_blank t.version then blank_version ∷ [] else [])
