-- ===== src/Stdio/Tests.antt =====
-- A server of task1_mcp_server with the guard of stdio_guard.py and without it.
use mcp_llm_gateway_suite.Base.{
  ℕ, ◌≡◌, refl, true, false, Option, none, some, List, [], ◌∷◌, ◌++◌, ◌==◌, ◌≤◌, suc, max, arith,
  All, Bool-cases, inl, inr,
}
use mcp_llm_gateway_suite.Base.Text.{codes}
use mcp_llm_gateway_suite.Stdio.Defs.{
  Descriptor, Descriptors, Process, Wire, private_wire, set_entry, write_to, flush_stdout, dup,
  dup2, rebuild_stdout, divert, reserve_stdout_for_protocol, descriptor_of,
}
use mcp_llm_gateway_suite.Stdio.Writers.{
  Act, sent, printed, wrote, child_wrote, duplicated, has_newline, print_text, write_or_not,
  inherits, act, run_acts, spares, frames, content,
}
use mcp_llm_gateway_suite.Stdio.Reserved.{reserved_wire_pure}

program : Unit {0}
unfolding set_entry descriptor_of write_to flush_stdout dup dup2 rebuild_stdout divert
    reserve_stdout_for_protocol has_newline print_text write_or_not inherits act run_acts spares
    frames content
program = tt

-- A number above all that are taken.
unfoldable above : Descriptors → ℕ
above [] = 0
above ((fd, d) ∷ table) = max (suc fd) (above table)

descriptor_of-past : (k : ℕ) (table : Descriptors) → above table ≤ k → descriptor_of k table ≡ none
unfolding above descriptor_of
descriptor_of-past k [] h = refl
descriptor_of-past k ((fd, d) ∷ table) h =
    let other : (k == fd) ≡ false = ground arith in
    let below : above table ≤ k = omega arith in rw other (descriptor_of-past k table below)

above_unused : (t : Descriptors) → descriptor_of (above t) t ≡ none
above_unused t = descriptor_of-past (above t) t (omega arith)

abbrev client_pipe : Descriptor
client_pipe = record { file = 10; is_inheritable = true }

abbrev terminal : Descriptor
terminal = record { file = 20; is_inheritable = true }

-- Descriptor 0 reads from file 30.
abbrev server : Process
server = record {
  table = (0, record { file = 30; is_inheritable = true }) ∷ (1, client_pipe) ∷ (2, terminal) ∷ [];
  stdout = record { descriptor = 1; pending = codes "early " };
  log = [];
  already_reserved = false;
}

abbrev day : List Act
day =
    sent (codes "{1}")
    ∷ printed (codes "debug ")
    ∷ wrote 1 (codes "banner ")
    ∷ child_wrote 1 (codes "child ")
    ∷ child_wrote 3 (codes "wire? ")
    ∷ duplicated 1
    ∷ sent (codes "{2}")
    ∷ []

process_after : Option (Wire × Process) → Process
process_after none = server
process_after (some (w, p)) = p

pure_wire :
    content 10
      (run_acts above 3 day (process_after (reserve_stdout_for_protocol above false server))).log
    ≡ codes "early {1}{2}"
unfolding program above process_after
pure_wire = refl

-- Without the guard, what a child process writes lands between the frames.
spoilt_wire :
    content 10
      (run_acts above 1 day (process_after (reserve_stdout_for_protocol above true server))).log
    ≡ codes "{1}banner child {2}"
unfolding program above process_after
spoilt_wire = refl

one_leads_there :
    (k : ℕ) (f : Descriptor) → descriptor_of k server.table ≡ some f → f.file ≡ 10 → k ≡ 1
unfolding descriptor_of
one_leads_there k f h same = elim (Bool-cases (k == 0)) [
  | inl here ↦ absurd (ground arith)
  | inr far ↦ elim (Bool-cases (k == 1)) [
    | inl here ↦ ground arith
    | inr further ↦ absurd (ground arith)
  ]
]

above_server : above server.table ≡ 3
unfolding above
above_server = refl

whole_day : All (λ a. spares (above server.table) a ≡ true) day
unfolding program above
whole_day = (refl, (refl, (refl, (refl, (refl, (refl, (refl, tt)))))))

reserved_wire_pure_example :
    (q : Process) × (reserve_stdout_for_protocol above false server
      ≡ some (private_wire (above server.table), q))
    × (content 10 (run_acts above (above server.table) day q).log
        ≡ content 10 (flush_stdout server).log ++ frames day)
unfolding descriptor_of
reserved_wire_pure_example =
    reserved_wire_pure above client_pipe terminal server day above_unused refl refl one_leads_there
      refl whole_day
