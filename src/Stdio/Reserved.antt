-- ===== src/Stdio/Reserved.antt =====
-- What `reserve_stdout_for_protocol` of task1_mcp_server/stdio_guard.py leaves behind.
use mcp_llm_gateway_suite.Base.{
  ℕ, ◌≡◌, ◌≢◌, refl, ◌∙◌, sym, ap, subst, Bool, true, false, inl, inr, none, some, List, [], ◌++◌,
  ◌==◌, if◌then◌else◌, All, arith, Bool-cases, Option-cases,
}
use mcp_llm_gateway_suite.Base.Text.{Text}
use mcp_llm_gateway_suite.Stdio.Defs.{
  Descriptor, Descriptors, Process, private_wire, set_entry, write_to, flush_stdout, dup, dup2,
  rebuild_stdout, divert, descriptor_of, reserve_stdout_for_protocol,
}
use mcp_llm_gateway_suite.Stdio.Writers.{Act, run_acts, spares, frames, content}
use mcp_llm_gateway_suite.Stdio.Purity.{IsPrivate, run_acts-Puts}

table-flush_stdout : (p : Process) → (flush_stdout p).table ≡ p.table
unfolding flush_stdout write_to
table-flush_stdout p = elim (Option-cases (descriptor_of p.stdout.descriptor p.table)) [
  | inl shut ↦ rw (flush_stdout, write_to, shut) refl
  | inr (d, found) ↦ rw (flush_stdout, write_to, found) refl
]

-- The descriptor of an entry that is there is not the free one.
taken :
    (free : Descriptors → ℕ) (t : Descriptors) (k : ℕ) (d : Descriptor)
    → descriptor_of (free t) t ≡ none
    → descriptor_of k t ≡ some d
    → (k == free t) ≡ false
taken free t k d empty found = elim (Bool-cases (k == free t)) [
  | inl same ↦ let e : k ≡ free t = ground arith in absurd cc
  | inr other ↦ other
]

two_not_one : (n : ℕ) → n ≡ 2 → n ≢ 1
two_not_one n h h2 = omega arith

module _ (free : Descriptors → ℕ) (fresh : (t : Descriptors) → descriptor_of (free t) t ≡ none)
    (d e : Descriptor) where
  record Diverted (p : Process) : Type 0 where
    process : Process
    result : divert free p ≡ some (private_wire (free p.table), process)
    is_private : IsPrivate (free p.table) d.file process
    same_log : process.log ≡ p.log

  divert-Diverted :
      (p : Process)
      → descriptor_of 1 p.table ≡ some d
      → descriptor_of 2 p.table ≡ some e
      → ((k : ℕ) (f : Descriptor) → descriptor_of k p.table ≡ some f → f.file ≡ d.file → k ≡ 1)
      → Diverted p
  unfolding divert dup dup2 rebuild_stdout set_entry descriptor_of
  divert-Diverted p one two alone =
      let wire_fd = free p.table in
      let wire : Descriptor = record { file = d.file; is_inheritable = false } in
      let first : Descriptors = set_entry wire_fd wire p.table in
      let to_stderr : Descriptor = record { file = e.file; is_inheritable = true } in
      let second : Descriptors = set_entry 1 to_stderr first in
      let new = free second in
      let private_stderr : Descriptor = record { file = e.file; is_inheritable = false } in
      let third : Descriptors = set_entry new private_stderr second in
      let apart : e.file ≢ d.file = λ same. two_not_one 2 refl (alone 2 e two same) in
      let not_one = taken free p.table 1 d (fresh p.table) one in
      let not_two = taken free p.table 2 e (fresh p.table) two in
      let found : descriptor_of 2 first ≡ some e = rw (set_entry, descriptor_of, not_two) two in
      let wire_there : descriptor_of wire_fd first ≡ some wire = ground arith in
      let other : (wire_fd == 1) ≡ false = ground arith in
      let still_there : descriptor_of wire_fd second ≡ some wire =
        rw (set_entry, descriptor_of, other) wire_there in
      let not_new = taken free second wire_fd wire (fresh second) still_there in
      record {
        process = record {
          table = third;
          stdout = record { descriptor = new; pending = [] };
          log = p.log;
          already_reserved = true;
        };
        result = rw (divert, dup, one, dup2, found) refl;
        is_private = record {
          entry = rw (set_entry, descriptor_of, not_new) still_there;
          alone = λ k f h same. elim (Bool-cases (k == new)) [
            | inl here ↦
                let copy : f ≡ private_stderr = cc in
                absurd (apart (sym (ap (λ (x : Descriptor). x.file) copy) ∙ same))
            | inr there ↦ elim (Bool-cases (k == 1)) [
              | inl here ↦
                  let copy : f ≡ to_stderr = cc in
                  absurd (apart (sym (ap (λ (x : Descriptor). x.file) copy) ∙ same))
              | inr beyond ↦ elim (Bool-cases (k == wire_fd)) [
                | inl here ↦ ground arith
                | inr far ↦
                    let old : descriptor_of k p.table ≡ some f = rw (there, beyond, far) at h in
                    let is_one = alone k f old same in absurd ground arith
              ]
            ]
          ];
          apart = λ same. absurd ground arith;
        };
        same_log = refl;
      }

reserve-Diverted :
    (free : Descriptors → ℕ) (fresh : (t : Descriptors) → descriptor_of (free t) t ≡ none)
    (d e : Descriptor) (p : Process) (x : Diverted free fresh d e (flush_stdout p))
    → p.already_reserved ≡ false
    → reserve_stdout_for_protocol free false p
      ≡ some (private_wire (free (flush_stdout p).table), x.process)
unfolding reserve_stdout_for_protocol
reserve-Diverted free fresh d e p x first =
    ap (λ (b : Bool). if b then none else divert free (flush_stdout p)) first ∙ x.result

-- After the guard has reserved standard output, what reaches the file that it led to is the frames
-- of the transport, whole and in their order, after what Python had buffered for it before: no print,
-- no write to a descriptor, none by a child process, and no duplicate of a descriptor puts anything
-- there, unless it uses the private descriptor itself. Before, descriptor 1 is the only one that
-- leads to this file and standard error leads elsewhere, the guard was not called, and it is not
-- disabled; the kernel gives a new descriptor a number that is free.
pub reserved_wire_pure :
    (free : Descriptors → ℕ) (d e : Descriptor) (p : Process) (acts : List Act)
    → ((t : Descriptors) → descriptor_of (free t) t ≡ none)
    → descriptor_of 1 p.table ≡ some d
    → descriptor_of 2 p.table ≡ some e
    → ((k : ℕ) (f : Descriptor) → descriptor_of k p.table ≡ some f → f.file ≡ d.file → k ≡ 1)
    → p.already_reserved ≡ false
    → All (λ a. spares (free p.table) a ≡ true) acts
    → (q : Process) × (reserve_stdout_for_protocol free false p
        ≡ some (private_wire (free p.table), q))
      × (content d.file (run_acts free (free p.table) acts q).log
          ≡ content d.file (flush_stdout p).log ++ frames acts)
reserved_wire_pure free d e p acts fresh one two alone first spared =
    let same = table-flush_stdout p in
    let x =
      divert-Diverted free fresh d e (flush_stdout p) (rw same one) (rw same two)
        (λ k f h. alone k f (rw same at h)) in
    let wire_fd = free (flush_stdout p).table in
    let out =
      run_acts-Puts free fresh wire_fd d.file acts x.process x.is_private
        (subst (λ w. All (λ a. spares w a ≡ true) acts) (sym (ap free same)) spared) in
    subst
      (λ w.
        (q : Process) × (reserve_stdout_for_protocol free false p ≡ some (private_wire w, q))
        × (content d.file (run_acts free w acts q).log
            ≡ content d.file (flush_stdout p).log ++ frames acts))
      (ap free same)
      (
        x.process,
        reserve-Diverted free fresh d e p x first,
        out.puts ∙ ap (λ (log : List (ℕ × Text)). content d.file log ++ frames acts) x.same_log,
      )
