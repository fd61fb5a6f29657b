-- ===== src/Guardrail/Faithful.antt =====
-- The whole of `redact_sse_stream`, task3_streaming_guardrail/llm_gateway.py: what the events say for
-- what the lines said.
use mcp_llm_gateway_suite.Base.{
  ℕ, ◌≤◌, ◌≡◌, refl, ◌∙◌, sym, ap, subst, Bool, true, false, Option, none, some, List, [], ◌∷◌,
  ◌++◌, map, All,
}
use mathlib.Core.List.{append_assoc, append-nil}
use mcp_llm_gateway_suite.Base.Text.{Text}
use mcp_llm_gateway_suite.Regex.{Unicode}
use mcp_llm_gateway_suite.Redactor.{Redactor, default_placeholder, new_redactor}
use mcp_llm_gateway_suite.Redactor.Bounds.{concat}
use mcp_llm_gateway_suite.Redactor.Matches.{longest}
use mcp_llm_gateway_suite.Redactor.Local.{KnowsAscii}
use mcp_llm_gateway_suite.Redactor.Faithful.{Owes, new-Owes}
use mcp_llm_gateway_suite.Guardrail.Sse.{
  is_caught, Parsed, Event, Sse, handle_line, redact_lines, redact_sse_stream, redact_once,
}
use mcp_llm_gateway_suite.Guardrail.Total.{redact_sse_stream_ends}
use mcp_llm_gateway_suite.Guardrail.Events.{
  event_texts, line_texts, upstream_texts, spoken, spoken-append,
}
use mcp_llm_gateway_suite.Guardrail.Tells.{At, Told-open}
use mcp_llm_gateway_suite.Guardrail.Keeps.{ends_stream, handle_line-keeps}
use mcp_llm_gateway_suite.Guardrail.Spoken.{policy, Told, pending, settled}
use mcp_llm_gateway_suite.Guardrail.Lines.{handle_line-Tells, redact_lines-Tells}

append-cancel : (xs ys zs : List Text) → xs ++ ys ≡ xs ++ zs → ys ≡ zs
append-cancel [] ys zs h = h
append-cancel (x ∷ xs) ys zs h = append-cancel xs ys zs (ap tail h)
  where
    tail : List Text → List Text
    tail [] = []
    tail (y ∷ t) = t

module _ (u : Unicode) (knows : KnowsAscii u) where
  Told-closed :
      (xs ys : List Text) (said : Text) (flushed : Bool) (r : Redactor)
      → Told u knows xs ys said flushed r
      → r.is_closed ≡ true
      → said ≡ policy u knows xs ys
  Told-closed xs ys said flushed r (pending o) h = absurd (open_and_closed o h)
    where
      open_and_closed :
          {text out : Text} → Owes u knows default_placeholder text out r → r.is_closed ≡ true → ⊥
      open_and_closed o h = cc (o.still_open, h)
  Told-closed xs ys said flushed r (settled e) h = e

  module _ (loads : Text → Parsed) (fine : (t : Text) → is_caught (loads t) ≡ true) where
    -- A stream whose first lines do not end it: what it has said for them and for the others.
    record Streams (xs : List Text) (said : Text) (body rest : List Text)
        (o : Option (List Event × Sse)) : Type 0 where
      events : List Event
      state : Sse
      result : o ≡ some (events, state)
      more : List Text
      after : List Text
      in_order : more ++ after ≡ upstream_texts loads rest
      told :
          Told u knows
            (xs ++ (upstream_texts loads body ++ more))
            after
            (said ++ spoken events)
            state.flushed
            state.redactor

    pub one_line :
        (text : Text) (st : Sse) (xs : List Text) (said : Text)
        → ends_stream loads text ≡ false
        → At u knows xs [] said st
        → st.flushed ≡ false
        → (events : List Event) × (st' : Sse) × (handle_line u loads text st ≡ some (events, st'))
          × (st'.flushed ≡ false)
          × At u knows (xs ++ line_texts loads text) [] (said ++ spoken events) st'
    one_line text st xs said goes_on t before =
        let f = handle_line-Tells u knows loads fine text st xs [] said t in
        let h = f.hears in
        let kept = handle_line-keeps u loads text st f.state f.events goes_on before f.result in
        let (empty, _) =
          Told-open u knows (xs ++ h.more) h.after (said ++ spoken f.events) f.state.flushed
            f.state.redactor h.told kept in
        let new : xs ++ h.more ≡ xs ++ line_texts loads text =
          sym (append-nil (xs ++ h.more))
          ∙ ap (λ (t : List Text). (xs ++ h.more) ++ t) (sym empty)
          ∙ h.in_order
          ∙ ap (λ (t : List Text). t ++ line_texts loads text) (append-nil xs) in
        (
          f.events,
          f.state,
          f.result,
          kept,
          subst
              (λ zs. Told u knows zs [] (said ++ spoken f.events) f.state.flushed f.state.redactor)
              new
              (subst
                (λ zs.
                  Told u knows (xs ++ h.more) zs (said ++ spoken f.events) f.state.flushed
                    f.state.redactor)
                empty h.told),
        )

    redact_lines-Streams :
        (body rest : List Text) (st : Sse) (xs : List Text) (said : Text)
        → All (λ text. ends_stream loads text ≡ false) body
        → At u knows xs [] said st
        → st.flushed ≡ false
        → Streams xs said body rest (redact_lines u loads (body ++ rest) st)
    unfolding redact_lines upstream_texts
    redact_lines-Streams [] rest st xs said quiet t before =
        let f = redact_lines-Tells u knows loads fine rest st xs [] said t in
        let h = f.hears in
        record {
          events = f.events;
          state = f.state;
          result = f.result;
          more = h.more;
          after = h.after;
          in_order = append-cancel xs (h.more ++ h.after) (upstream_texts loads rest) (
              sym (append_assoc xs h.more h.after)
              ∙ h.in_order
              ∙ ap (λ (t : List Text). t ++ upstream_texts loads rest) (append-nil xs));
          told = h.told;
        }
    redact_lines-Streams (text ∷ body) rest st xs said quiet t before =
        let (events, st', e, kept, t') = one_line text st xs said quiet.0 t before in
        let later =
          redact_lines-Streams body rest st' (xs ++ line_texts loads text) (said ++ spoken events)
            quiet.1 t' kept in
        record {
          events = events ++ later.events;
          state = later.state;
          result = let e' = later.result in rw (e, redact_lines, e') refl;
          more = later.more;
          after = later.after;
          in_order = later.in_order;
          told =
              subst
                (λ zs.
                  Told u knows zs later.after (said ++ spoken (events ++ later.events))
                    later.state.flushed later.state.redactor)
                (append_assoc xs (line_texts loads text) (upstream_texts loads body ++ later.more)
                  ∙ ap (λ (t : List Text). xs ++ t)
                      (sym (
                        append_assoc (line_texts loads text) (upstream_texts loads body)
                          later.more)))
                (subst
                  (λ s.
                    Told u knows
                      ((xs ++ line_texts loads text) ++ (upstream_texts loads body ++ later.more))
                      later.after s later.state.flushed later.state.redactor)
                  (append_assoc said (spoken events) (spoken later.events)
                    ∙ ap (λ (t : Text). said ++ t) (sym (spoken-append events later.events)))
                  later.told);
        }

same_state :
    (a b : List Event) (s s' : Sse)
    → ◌≡◌ {A = Option (List Event × Sse)} (some (a, s)) (some (b, s'))
    → s ≡ s'
same_state a b s s' h = cc

-- The texts that a stream puts out, however the upstream cuts them into frames and choices, are the
-- redaction of the texts that came in: all of those in the lines before the first that ends the
-- stream, and possibly some of the later ones, as one text, as if it had come whole; and those that
-- come still later each by itself. The redactor is a new one with 345 characters of holdback or
-- more, `json.loads` raises nothing that is not caught, and the digits of ASCII are decimal digits.
pub redact_sse_stream_redacts :
    (u : Unicode) (loads : Text → Parsed) (h : ℕ) (body rest : List Text)
    → KnowsAscii u
    → longest ≤ h
    → ((t : Text) → is_caught (loads t) ≡ true)
    → All (λ text. ends_stream loads text ≡ false) body
    → (events : List Event) × (last : Sse) × (redact_sse_stream u loads
          (new_redactor h default_placeholder)
          (body ++ rest)
        ≡ some (events, last))
      × (more : List Text) × (after : List Text) × (more ++ after ≡ upstream_texts loads rest)
      × (concat (event_texts events)
          ≡ redact_once u (concat (upstream_texts loads body ++ more))
            ++ concat (map (redact_once u) after))
unfolding redact_sse_stream new_redactor
redact_sse_stream_redacts u loads h body rest knows le fine quiet =
    let r = new_redactor h default_placeholder in
    let start : Sse = record { redactor = r; flushed = false; last_frame = none } in
    let t =
      redact_lines-Streams u knows loads fine body rest start [] [] quiet
        (pending (new-Owes u knows h default_placeholder le)) refl in
    let (events, last, result, closed, _) =
      redact_sse_stream_ends u loads r (body ++ rest) fine refl in
    let same : t.state ≡ last = same_state t.events events t.state last (sym t.result ∙ result) in
    (
      t.events,
      t.state,
      t.result,
      t.more,
      t.after,
      t.in_order,
      Told-closed u knows (upstream_texts loads body ++ t.more) t.after (spoken t.events)
          t.state.flushed t.state.redactor t.told
          (subst (λ s. s.redactor.is_closed ≡ true) (sym same) closed),
    )
