-- ===== src/Stdio/Defs.antt =====
-- task1_mcp_server/stdio_guard.py over a table of file descriptors. The kernel's choice of a free
-- descriptor is an argument.
use mcp_llm_gateway_suite.Base.{
  ℕ, Bool, true, false, Option, none, some, List, [], ◌∷◌, ◌==◌, if◌then◌else◌,
}
use mcp_llm_gateway_suite.Base.Text.{Text}

-- What a descriptor refers to, and whether a child process gets it.
pub record Descriptor : Type 0 where
  pub file : ℕ
  pub is_inheritable : Bool

abbrev pub Descriptors : Type 0
Descriptors = List (ℕ × Descriptor)

unfoldable pub descriptor_of : ℕ → Descriptors → Option Descriptor
descriptor_of fd [] = none
descriptor_of fd ((other, d) ∷ table) = if fd == other then some d else descriptor_of fd table

-- A text stream on a descriptor, with what it has not passed on.
pub record Stream : Type 0 where
  pub descriptor : ℕ
  pub pending : Text

-- The log has the texts that have reached the files, the last one first.
pub record Process : Type 0 where
  pub table : Descriptors
  pub stdout : Stream
  pub log : List (ℕ × Text)
  pub already_reserved : Bool

-- The stream that `reserve_stdout_for_protocol` returns.
pub data Wire : Type 0 where
  private_wire : ℕ → Wire
  shared_stdout : Wire

unfoldable pub set_entry : ℕ → Descriptor → Descriptors → Descriptors
set_entry fd d table = (fd, d) ∷ table

-- A write to a descriptor; `none` if it raises an `OSError`.
unfoldable pub write_to : ℕ → Text → Process → Option Process
unfolding descriptor_of
write_to fd text p = elim (descriptor_of fd p.table) [
  | none ↦ none
  | some d ↦ some (record p { log = (d.file, text) ∷ p.log })
]

-- `sys.stdout.flush()`, whose `OSError` is caught.
unfoldable pub flush_stdout : Process → Process
unfolding write_to
flush_stdout p = elim (write_to p.stdout.descriptor p.stdout.pending p) [
  | none ↦ p
  | some q ↦ record q { stdout = record { descriptor = p.stdout.descriptor; pending = [] } }
]

-- `os.dup`, whose result is not inheritable: the new descriptor and the table with it.
unfoldable pub dup : (Descriptors → ℕ) → ℕ → Descriptors → Option (ℕ × Descriptors)
unfolding set_entry descriptor_of
dup free fd table = elim (descriptor_of fd table) [
  | none ↦ none
  | some d ↦ some (free table, set_entry (free table) (record d { is_inheritable = false }) table)
]

-- `os.dup2`, whose result is inheritable.
unfoldable pub dup2 : ℕ → ℕ → Descriptors → Option Descriptors
unfolding set_entry descriptor_of
dup2 fd fd2 table = elim (descriptor_of fd table) [
  | none ↦ none
  | some d ↦ some (set_entry fd2 (record d { is_inheritable = true }) table)
]

-- `sys.stdout` on a duplicate of descriptor 1, or on stderr if there is none.
unfoldable pub rebuild_stdout : (Descriptors → ℕ) → Process → Process
unfolding dup
rebuild_stdout free p = elim (dup free 1 p.table) [
  | none ↦ record p { stdout = record { descriptor = 2; pending = [] } }
  | some (fd, table) ↦ record p { table = table; stdout = record { descriptor = fd; pending = [] } }
]

unfoldable pub divert : (Descriptors → ℕ) → Process → Option (Wire × Process)
unfolding dup dup2 rebuild_stdout
divert free p = elim (dup free 1 p.table) [
  | none ↦ none
  | some (wire_fd, table) ↦ elim (dup2 2 1 table) [
    | none ↦ none
    | some diverted ↦ some (
      private_wire wire_fd,
      rebuild_stdout free (record p { table = diverted; already_reserved = true }),
    )
  ]
]

-- `disabled` is whether the environment has `BILLING_MCP_DISABLE_GUARD`; `none` if an exception is
-- raised.
unfoldable pub reserve_stdout_for_protocol :
    (Descriptors → ℕ) → Bool → Process → Option (Wire × Process)
unfolding divert flush_stdout
reserve_stdout_for_protocol free disabled p =
    if p.already_reserved
    then none
    else if disabled
    then some (shared_stdout, record p { already_reserved = true })
    else divert free (flush_stdout p)
