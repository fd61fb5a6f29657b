-- ===== src/Redactor/Faithful.antt =====
-- A whole stream through the redactor of task3_streaming_guardrail/redactor.py against the one-shot
-- redaction of the whole text.
use mcp_llm_gateway_suite.Base.{
  ℕ, ◌≤◌, ◌≡◌, refl, ◌∙◌, sym, ap, subst, false, none, some, List, [], ◌∷◌, ◌++◌, length, drop,
  arith, length-append, ◌==◌,
}
use mathlib.Core.List.{append_assoc, append-nil}
use mcp_llm_gateway_suite.Base.Text.{Text}
use mcp_llm_gateway_suite.Regex.{Unicode}
use mcp_llm_gateway_suite.Redactor.Scan.{previous}
use mcp_llm_gateway_suite.Redactor.Emit.{Stats, redact_complete}
use mcp_llm_gateway_suite.Redactor.Stream.{Redactor, feed_open, feed, flush, new_redactor}
use mcp_llm_gateway_suite.Redactor.Matches.{longest}
use mcp_llm_gateway_suite.Redactor.Bounds.{concat, feed_all, feed_of_open}
use mcp_llm_gateway_suite.Redactor.Reference.{redacted, last_of}
use mcp_llm_gateway_suite.Redactor.Complete.{
  redact_complete_from-redacted, redact_complete-redacted,
}
use mcp_llm_gateway_suite.Redactor.Local.{KnowsAscii}
use mcp_llm_gateway_suite.Redactor.Pieces.{drop-length, previous-append}
use mcp_llm_gateway_suite.Redactor.Feeding.{feed_open-redacted}

module _ (u : Unicode) (knows : KnowsAscii u) where
  module _ (placeholder : Text) where
    -- After a text: what was put out, with the reference of what is kept, is the reference of the
    -- text, whatever comes behind it.
    pub record Owes (text out : Text) (r : Redactor) : Type 0 where
      pub still_open : r.is_closed ≡ false
      enough : longest ≤ r.max_holdback
      marks : r.placeholder ≡ placeholder
      owes :
          (more : Text)
          → out ++ redacted u placeholder (last_of none r.left_context) 0 (r.buffer ++ more)
            ≡ redacted u placeholder none 0 (text ++ more)

    feed_open-marked :
        (r : Redactor) (chunk more : Text)
        → longest ≤ r.max_holdback
        → r.placeholder ≡ placeholder
        → (feed_open u r chunk).0
            ++ redacted u placeholder
                (last_of none (feed_open u r chunk).1.left_context)
                0
                ((feed_open u r chunk).1.buffer ++ more)
          ≡ redacted u placeholder (last_of none r.left_context) 0 (r.buffer ++ (chunk ++ more))
    feed_open-marked r chunk more enough marks =
        subst
          (λ p.
            (feed_open u r chunk).0
              ++ redacted u p (last_of none (feed_open u r chunk).1.left_context) 0
                  ((feed_open u r chunk).1.buffer ++ more)
            ≡ redacted u p (last_of none r.left_context) 0 ((r.buffer ++ chunk) ++ more))
          marks (feed_open-redacted u knows r enough chunk more)
        ∙ ap (redacted u placeholder (last_of none r.left_context) 0)
            (append_assoc r.buffer chunk more)

    feed_open-Owes :
        (text out : Text) (r : Redactor) (chunk : Text)
        → Owes text out r
        → Owes (text ++ chunk) (out ++ (feed_open u r chunk).0) (feed_open u r chunk).1
    unfolding feed_open
    feed_open-Owes text out r chunk o = record {
      still_open = o.still_open;
      enough = o.enough;
      marks = o.marks;
      owes = λ more.
          append_assoc out (feed_open u r chunk).0 _
          ∙ ap (λ (t : Text). out ++ t) (feed_open-marked r chunk more o.enough o.marks)
          ∙ o.owes (chunk ++ more)
          ∙ ap (redacted u placeholder none 0) (sym (append_assoc text chunk more));
    }

    pub feed-Owes :
        (text out : Text) (r : Redactor) (chunk : Text)
        → Owes text out r
        → (emit : Text) × (r' : Redactor) × (feed u r chunk ≡ some (emit, r'))
          × Owes (text ++ chunk) (out ++ emit) r'
    unfolding feed
    feed-Owes text out r [] o = (
      [],
      r,
      rw o.still_open refl,
      subst (λ t. Owes t (out ++ []) r) (sym (append-nil text))
          (subst (λ t. Owes text t r) (sym (append-nil out)) o),
    )
    feed-Owes text out r (c ∷ cs) o =
        let full : (length (c ∷ cs) == 0) ≡ false = ground arith in
        (
          (feed_open u r (c ∷ cs)).0,
          (feed_open u r (c ∷ cs)).1,
          feed_of_open u r (c ∷ cs) o.still_open full,
          feed_open-Owes text out r (c ∷ cs) o,
        )

    feed_all-Owes :
        (text out : Text) (r : Redactor) (chunks : List Text)
        → Owes text out r
        → (puts : List Text) × (end : Redactor) × (feed_all u r chunks ≡ some (puts, end))
          × Owes (text ++ concat chunks) (out ++ concat puts) end
    unfolding feed_all
    feed_all-Owes text out r [] o = (
      [],
      r,
      refl,
      subst (λ t. Owes t (out ++ []) r) (sym (append-nil text))
          (subst (λ t. Owes text t r) (sym (append-nil out)) o),
    )
    feed_all-Owes text out r (c ∷ cs) o =
        let (emit, r', fed, o') = feed-Owes text out r c o in
        let (puts, end, all, after) = feed_all-Owes (text ++ c) (out ++ emit) r' cs o' in
        (
          emit ∷ puts,
          end,
          rw (fed, feed_all, all) refl,
          subst (λ t. Owes t (out ++ (emit ++ concat puts)) end) (append_assoc text c (concat cs))
              (subst (λ t. Owes ((text ++ c) ++ concat cs) t end)
                (append_assoc out emit (concat puts)) after),
        )

    pub flush-Owes :
        (text out : Text) (r : Redactor)
        → Owes text out r
        → out ++ (flush u r).0 ≡ redacted u placeholder none 0 text
    unfolding flush
    flush-Owes text out r o =
        let whole = r.left_context ++ r.buffer in
        let offset = length r.left_context in
        let rest =
          redact_complete_from-redacted u whole offset r.stats r.placeholder
            (omega (arith, length-append r.left_context r.buffer)) in
        let kept : (flush u r).0
            ≡ redacted u r.placeholder (previous whole offset) 0 (drop offset whole) =
          rw o.still_open rest in
        ap (λ (t : Text). out ++ t)
          (kept
            ∙ ap (λ p. redacted u p (previous whole offset) 0 (drop offset whole)) o.marks
            ∙ ap (λ p. redacted u placeholder p 0 (drop offset whole))
                (previous-append r.left_context r.buffer)
            ∙ ap (redacted u placeholder (last_of none r.left_context) 0)
                (drop-length r.left_context r.buffer ∙ sym (append-nil r.buffer)))
        ∙ o.owes []
        ∙ ap (redacted u placeholder none 0) (append-nil text)

pub new-Owes :
    (u : Unicode) (knows : KnowsAscii u) (h : ℕ) (placeholder : Text)
    → longest ≤ h
    → Owes u knows placeholder [] [] (new_redactor h placeholder)
unfolding new_redactor
new-Owes u knows h placeholder le = record {
  still_open = refl;
  enough = le;
  marks = refl;
  owes = λ more. refl;
}

-- What a new redactor puts out for a stream of chunks, the feeds one after the other and the flush
-- at the end, is what the one-shot redaction puts out for the whole text: with 345 characters of
-- holdback or more, no matter how the text is cut into chunks, no feed raises and every match that
-- is cut by the chunks is redacted as if it had come whole. The digits of ASCII are decimal digits
-- for the Unicode database.
pub stream-one_shot :
    (u : Unicode) (h : ℕ) (placeholder : Text) (chunks : List Text) (stats : Stats)
    → KnowsAscii u
    → longest ≤ h
    → (puts : List Text) × (end : Redactor) × (feed_all u (new_redactor h placeholder) chunks
        ≡ some (puts, end))
      × (concat puts ++ (flush u end).0 ≡ (redact_complete u (concat chunks) stats placeholder).0)
stream-one_shot u h placeholder chunks stats knows le =
    let (puts, end, all, o) =
      feed_all-Owes u knows placeholder [] [] (new_redactor h placeholder) chunks
        (new-Owes u knows h placeholder le) in
    (
      puts,
      end,
      all,
      flush-Owes u knows placeholder (concat chunks) (concat puts) end o
          ∙ sym (redact_complete-redacted u (concat chunks) stats placeholder),
    )
