-- ===== src/Stdio/Writers.antt =====
-- What may write while the server of task1_mcp_server runs: the transport on the stream that
-- task1_mcp_server/stdio_guard.py returns, and everything else.
use mcp_llm_gateway_suite.Base.{
  ℕ, Bool, true, false, not, ◌||◌, Option, none, some, List, [], ◌∷◌, ◌++◌, ◌==◌, if◌then◌else◌,
}
use mcp_llm_gateway_suite.Base.Text.{Text}
use mcp_llm_gateway_suite.Stdio.Defs.{
  Descriptor, Descriptors, Stream, Process, write_to, flush_stdout, dup, descriptor_of,
}

-- A frame of the transport; a `print`; a write to a descriptor; one by a child process, which has
-- the inheritable descriptors only; and the duplication of a descriptor.
pub data Act : Type 0 where
  sent : Text → Act
  printed : Text → Act
  wrote : ℕ → Text → Act
  child_wrote : ℕ → Text → Act
  duplicated : ℕ → Act

unfoldable pub has_newline : Text → Bool
has_newline [] = false
has_newline (c ∷ s) = c == 10 || has_newline s

-- A write to the line-buffered `sys.stdout`.
unfoldable pub print_text : Text → Process → Process
unfolding has_newline flush_stdout
print_text text p =
    let held : Stream = record {
      descriptor = p.stdout.descriptor;
      pending = p.stdout.pending ++ text;
    } in
    if has_newline text
    then flush_stdout (record p { stdout = held })
    else record p { stdout = held }

-- A write that raises leaves the process as it is.
unfoldable pub write_or_not : ℕ → Text → Process → Process
unfolding write_to
write_or_not fd text p = elim (write_to fd text p) [ none ↦ p | some q ↦ q ]

unfoldable pub inherits : Option Descriptor → Bool
inherits none = false
inherits (some d) = d.is_inheritable

-- `wire_fd` is the descriptor of the private stream.
unfoldable pub act : (Descriptors → ℕ) → ℕ → Act → Process → Process
unfolding print_text write_or_not inherits dup descriptor_of
act free wire_fd (sent text) p = write_or_not wire_fd text p
act free wire_fd (printed text) p = print_text text p
act free wire_fd (wrote fd text) p = write_or_not fd text p
act free wire_fd (child_wrote fd text) p =
    if inherits (descriptor_of fd p.table) then write_or_not fd text p else p
act free wire_fd (duplicated fd) p = elim (dup free fd p.table) [
  | none ↦ p
  | some (new, table) ↦ record p { table = table }
]

unfoldable pub run_acts : (Descriptors → ℕ) → ℕ → List Act → Process → Process
unfolding act
run_acts free wire_fd [] p = p
run_acts free wire_fd (a ∷ acts) p = run_acts free wire_fd acts (act free wire_fd a p)

-- An act that does not use the private descriptor itself.
unfoldable pub spares : ℕ → Act → Bool
spares wire_fd (wrote fd text) = not (fd == wire_fd)
spares wire_fd (duplicated fd) = not (fd == wire_fd)
spares wire_fd _ = true

unfoldable pub frames : List Act → Text
frames [] = []
frames (sent text ∷ acts) = text ++ frames acts
frames (printed text ∷ acts) = frames acts
frames (wrote fd text ∷ acts) = frames acts
frames (child_wrote fd text ∷ acts) = frames acts
frames (duplicated fd ∷ acts) = frames acts

-- What has reached a file.
unfoldable pub content : ℕ → List (ℕ × Text) → Text
content file [] = []
content file ((other, text) ∷ log) =
    if other == file then content file log ++ text else content file log
