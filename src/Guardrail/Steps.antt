-- ===== src/Guardrail/Steps.antt =====
-- One frame of `redact_sse_stream` of task3_streaming_guardrail/llm_gateway.py: the redactor is fed
-- while it is open.
use mcp_llm_gateway_suite.Base.{
  ◌≡◌, refl, inl, inr, Bool, true, false, ◌||◌, some, List, [], ◌∷◌, ◌++◌, ◌==◌, Bool-cases,
  Option-cases, length,
}
use mcp_llm_gateway_suite.Base.Text.{Text}
use mcp_llm_gateway_suite.Json.{Fields}
use mcp_llm_gateway_suite.Regex.{Unicode}
use mcp_llm_gateway_suite.Redactor.{Redactor, feed, feed_open, flush}
use mcp_llm_gateway_suite.Guardrail.Frames.{content_of, without_content}
use mcp_llm_gateway_suite.Guardrail.Sse.{redact_once, safe_text, rebuilt_choice, handle_choices}

-- The redactor is closed exactly if the generator has flushed it, and then holds nothing.
pub record InStep (r : Redactor) (flushed : Bool) : Type 0 where
  pub same : r.is_closed ≡ flushed
  pub emptied : flushed ≡ true → r.buffer ≡ []

feed_open-open :
    (u : Unicode) (r : Redactor) (chunk : Text)
    → r.is_closed ≡ false
    → (feed_open u r chunk).1.is_closed ≡ false
unfolding feed_open
feed_open-open u r chunk h = h

feed_open_lem :
    (u : Unicode) (r : Redactor) (chunk : Text)
    → r.is_closed ≡ false
    → (safe : Text) × (r' : Redactor) × (feed u r chunk ≡ some (safe, r')) × (r'.is_closed ≡ false)
unfolding feed
feed_open_lem u r chunk h = elim (Bool-cases (length chunk == 0)) [
  | inl empty ↦ ([], r, cc, h)
  | inr full ↦ ((feed_open u r chunk).0, (feed_open u r chunk).1, cc, feed_open-open u r chunk h)
]

pub flush-InStep : (u : Unicode) (r : Redactor) → r.is_closed ≡ false → InStep (flush u r).1 true
unfolding flush
flush-InStep u r h = record { same = cc; emptied = λ e. cc }

pub InStep-open : (r : Redactor) → r.is_closed ≡ false → InStep r false
InStep-open r h = record { same = h; emptied = λ e. absurd cc }

safe_text-InStep :
    (u : Unicode) (finished flushed : Bool) (r : Redactor) (content : Text)
    → InStep r flushed
    → (safe : Text) × (r' : Redactor) × (flushed' : Bool) × (safe_text u finished flushed r content
        ≡ some (safe, r', flushed'))
      × InStep r' flushed'
unfolding safe_text
safe_text-InStep u finished true r content i = (redact_once u content, r, true, refl, i)
safe_text-InStep u true false r content i =
    let (safe, r', fed, still) = feed_open_lem u r content i.same in
    (
      safe ++ (flush u r').0,
      (flush u r').1,
      true,
      rw (fed, safe_text) refl,
      flush-InStep u r' still,
    )
safe_text-InStep u false false r content i =
    let (safe, r', fed, still) = feed_open_lem u r content i.same in
    (safe, r', false, rw (fed, safe_text) refl, InStep-open r' still)

pub handle_choices-InStep :
    (u : Unicode) (finished flushed : Bool) (r : Redactor) (choices : List Fields)
    → InStep r flushed
    → (rebuilt : List Fields) × (emitted : Bool) × (r' : Redactor) × (flushed' : Bool)
      × (handle_choices u finished flushed r choices ≡ some (rebuilt, emitted, r', flushed'))
      × InStep r' flushed'
unfolding handle_choices
handle_choices-InStep u finished flushed r [] i = ([], false, r, flushed, refl, i)
handle_choices-InStep u finished flushed r (choice ∷ choices) i =
    elim (Option-cases (content_of choice)) [
      | inl nothing ↦
          let (rest, emitted, r', flushed', e, i') =
            handle_choices-InStep u finished flushed r choices i in
          (
            without_content choice ∷ rest,
            emitted,
            r',
            flushed',
            rw (nothing, handle_choices, e) refl,
            i',
          )
      | inr (content, found) ↦
          let (safe, r', flushed', e, i') = safe_text-InStep u finished flushed r content i in
          let (rest, emitted, r'', flushed'', e', i'') =
            handle_choices-InStep u finished flushed' r' choices i' in
          (
            (rebuilt_choice finished choice safe).0 ++ rest,
            (rebuilt_choice finished choice safe).1 || emitted,
            r'',
            flushed'',
            rw (found, handle_choices, e, e') refl,
            i'',
          )
    ]
