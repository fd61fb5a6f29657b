-- ===== src/Stdio/Purity.antt =====
-- The wire after `reserve_stdout_for_protocol` of task1_mcp_server/stdio_guard.py.
use mcp_llm_gateway_suite.Base.{
  ℕ, ◌≡◌, ◌≢◌, refl, ◌∙◌, sym, ap, subst, true, false, inl, inr, none, some, List, [], ◌∷◌, ◌++◌,
  ◌==◌, All, arith, Bool-cases, Option-cases,
}
use mathlib.Core.List.{append_assoc, append-nil}
use mcp_llm_gateway_suite.Base.Text.{Text}
use mcp_llm_gateway_suite.Stdio.Defs.{
  Descriptor, Descriptors, Stream, Process, set_entry, write_to, flush_stdout, dup, descriptor_of,
}
use mcp_llm_gateway_suite.Stdio.Writers.{
  Act, sent, printed, wrote, child_wrote, duplicated, print_text, write_or_not, inherits, act,
  run_acts, spares, frames, content, has_newline,
}

-- Only one descriptor leads to a file, and no child process gets it.
pub record IsPrivate (wire_fd file : ℕ) (p : Process) : Type 0 where
  pub entry : descriptor_of wire_fd p.table ≡ some (record { file = file; is_inheritable = false })
  pub alone :
      (k : ℕ) (d : Descriptor) → descriptor_of k p.table ≡ some d → d.file ≡ file → k ≡ wire_fd
  pub apart : p.stdout.descriptor ≢ wire_fd

module _ (free : Descriptors → ℕ) (fresh : (t : Descriptors) → descriptor_of (free t) t ≡ none)
    (wire_fd file : ℕ) where
  -- A step that keeps the wire and puts a text on it.
  pub record Puts (text : Text) (p q : Process) : Type 0 where
    pub kept : IsPrivate wire_fd file q
    pub puts : content file q.log ≡ content file p.log ++ text

  Puts-nothing : (p : Process) → IsPrivate wire_fd file p → Puts [] p p
  Puts-nothing p i = record { kept = i; puts = sym (append-nil (content file p.log)) }

  write_elsewhere :
      (fd : ℕ) (text : Text) (p : Process)
      → IsPrivate wire_fd file p
      → fd ≢ wire_fd
      → Puts [] p (write_or_not fd text p)
  unfolding write_or_not write_to content
  write_elsewhere fd text p i apart = elim (Option-cases (descriptor_of fd p.table)) [
    | inl shut ↦ rw (write_or_not, write_to, shut) (Puts-nothing p i)
    | inr (d, found) ↦
        let other : d.file ≢ file = λ e. apart (i.alone fd d found e) in
        let differs : (d.file == file) ≡ false = ground arith in
        rw (found, write_or_not, write_to)
          (record {
            kept = record { entry = i.entry; alone = i.alone; apart = i.apart };
            puts = rw (content, differs) (sym (append-nil (content file p.log)));
          })
  ]

  write_on_wire :
      (text : Text) (p : Process)
      → IsPrivate wire_fd file p
      → Puts text p (write_or_not wire_fd text p)
  unfolding write_or_not write_to content
  write_on_wire text p i =
      let found = i.entry in
      let same : (file == file) ≡ true = ground arith in
      rw (found, write_or_not, write_to)
        (record {
          kept = record { entry = i.entry; alone = i.alone; apart = i.apart };
          puts = rw (content, same) refl;
        })

  moved_stdout :
      (s : Stream) (text : Text) (p q : Process)
      → s.descriptor ≢ wire_fd
      → Puts text p q
      → Puts text p (record q { stdout = s })
  moved_stdout s text p q apart step = record {
    kept = record { entry = step.kept.entry; alone = step.kept.alone; apart = apart };
    puts = step.puts;
  }

  flush_elsewhere : (p : Process) → IsPrivate wire_fd file p → Puts [] p (flush_stdout p)
  unfolding flush_stdout write_to content
  flush_elsewhere p i = elim (Option-cases (descriptor_of p.stdout.descriptor p.table)) [
    | inl shut ↦ rw (flush_stdout, write_to, shut) (Puts-nothing p i)
    | inr (d, found) ↦
        let other : d.file ≢ file = λ e. i.apart (i.alone p.stdout.descriptor d found e) in
        let differs : (d.file == file) ≡ false = ground arith in
        rw (flush_stdout, write_to, found)
          (record {
            kept = record { entry = i.entry; alone = i.alone; apart = i.apart };
            puts = rw (content, differs) (sym (append-nil (content file p.log)));
          })
  ]

  print_elsewhere :
      (text : Text) (p : Process) → IsPrivate wire_fd file p → Puts [] p (print_text text p)
  unfolding print_text
  print_elsewhere text p i =
      let held : Stream = record {
        descriptor = p.stdout.descriptor;
        pending = p.stdout.pending ++ text;
      } in
      let first = moved_stdout held [] p p i.apart (Puts-nothing p i) in
      elim (Bool-cases (has_newline text)) [
        | inl line ↦
            let flushed = flush_elsewhere (record p { stdout = held }) first.kept in
            rw line (record { kept = flushed.kept; puts = flushed.puts })
        | inr part ↦ rw part first
      ]

  dup_elsewhere :
      (fd : ℕ) (p : Process)
      → IsPrivate wire_fd file p
      → fd ≢ wire_fd
      → Puts [] p (act free wire_fd (duplicated fd) p)
  unfolding act dup set_entry descriptor_of
  dup_elsewhere fd p i apart = elim (Option-cases (descriptor_of fd p.table)) [
    | inl shut ↦ rw (act, dup, shut) (Puts-nothing p i)
    | inr (d, found) ↦
        let new = free p.table in
        let empty = fresh p.table in
        let other : d.file ≢ file = λ e. apart (i.alone fd d found e) in
        let is_new : new ≢ wire_fd = λ e. absurd cc in
        let kept : (wire_fd == new) ≡ false = ground arith in
        rw (act, dup, found)
          (record {
            kept = record {
              entry = rw (set_entry, descriptor_of, kept) i.entry;
              alone = λ k e h same. elim (Bool-cases (k == new)) [
                | inl here ↦
                    let copy : e ≡ record { file = d.file; is_inheritable = false } = cc in
                    absurd (other (sym (ap (λ (x : Descriptor). x.file) copy) ∙ same))
                | inr there ↦ i.alone k e (rw (set_entry, descriptor_of, there) at h) same
              ];
              apart = i.apart;
            };
            puts = sym (append-nil (content file p.log));
          })
  ]

  act-Puts :
      (a : Act) (p : Process)
      → IsPrivate wire_fd file p
      → spares wire_fd a ≡ true
      → Puts (frames (a ∷ [])) p (act free wire_fd a p)
  unfolding act frames spares inherits
  act-Puts (sent text) p i spared =
      subst (λ t. Puts t p (write_or_not wire_fd text p)) (sym (append-nil text))
        (write_on_wire text p i)
  act-Puts (printed text) p i spared = print_elsewhere text p i
  act-Puts (wrote fd text) p i spared =
      let apart : fd ≢ wire_fd = ground arith in write_elsewhere fd text p i apart
  act-Puts (child_wrote fd text) p i spared =
      elim (Bool-cases (inherits (descriptor_of fd p.table))) [
        | inl passed ↦
            let hidden : inherits (descriptor_of wire_fd p.table) ≡ false = ap inherits i.entry in
            let apart : fd ≢ wire_fd = λ e. absurd cc in
            rw passed (write_elsewhere fd text p i apart)
        | inr kept ↦ rw kept (Puts-nothing p i)
      ]
  act-Puts (duplicated fd) p i spared =
      let apart : fd ≢ wire_fd = ground arith in dup_elsewhere fd p i apart

  frames-cons : (a : Act) (acts : List Act) → frames (a ∷ []) ++ frames acts ≡ frames (a ∷ acts)
  unfolding frames
  frames-cons (sent text) acts = append_assoc text [] (frames acts)
  frames-cons (printed text) acts = refl
  frames-cons (wrote fd text) acts = refl
  frames-cons (child_wrote fd text) acts = refl
  frames-cons (duplicated fd) acts = refl

  pub run_acts-Puts :
      (acts : List Act) (p : Process)
      → IsPrivate wire_fd file p
      → All (λ a. spares wire_fd a ≡ true) acts
      → Puts (frames acts) p (run_acts free wire_fd acts p)
  unfolding run_acts frames
  run_acts-Puts [] p i spared = Puts-nothing p i
  run_acts-Puts (a ∷ acts) p i spared =
      let first = act-Puts a p i spared.0 in
      let later = run_acts-Puts acts (act free wire_fd a p) first.kept spared.1 in
      record {
        kept = later.kept;
        puts =
            later.puts
            ∙ ap (λ (t : Text). t ++ frames acts) first.puts
            ∙ append_assoc (content file p.log) (frames (a ∷ [])) (frames acts)
            ∙ ap (λ (t : Text). content file p.log ++ t) (frames-cons a acts);
      }
