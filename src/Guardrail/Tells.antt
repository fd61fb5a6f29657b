-- ===== src/Guardrail/Tells.antt =====
-- What a step of `redact_sse_stream`, task3_streaming_guardrail/llm_gateway.py, says: a flush, an
-- event without a text, and a frame.
use mcp_llm_gateway_suite.Base.{
  ◌≡◌, refl, ◌∙◌, sym, ap, subst, Bool, true, false, not, Option, some, List, [], ◌∷◌, ◌++◌, inl,
  inr, Bool-cases,
}
use mathlib.Core.List.{append-nil}
use mcp_llm_gateway_suite.Base.Text.{Text}
use mcp_llm_gateway_suite.Json.{object, Fields}
use mcp_llm_gateway_suite.Gateway.Rpc.{is_null}
use mcp_llm_gateway_suite.Regex.{Unicode}
use mcp_llm_gateway_suite.Redactor.{Redactor, default_placeholder, flush}
use mcp_llm_gateway_suite.Redactor.Bounds.{concat}
use mcp_llm_gateway_suite.Redactor.Local.{KnowsAscii}
use mcp_llm_gateway_suite.Redactor.Faithful.{Owes}
use mcp_llm_gateway_suite.Guardrail.Frames.{choices_of, finish_reason_of}
use mcp_llm_gateway_suite.Guardrail.Sse.{
  Event, frame, frame_events, Sse, tail_event, flush_sse, handle_choices, handle_frame,
}
use mcp_llm_gateway_suite.Guardrail.Total.{flush_sse_done, flush_sse_now, List-cases}
use mcp_llm_gateway_suite.Guardrail.Events.{
  event_texts, spoken, spoken-append, spoken-tail_event, spoken-frame_events,
}
use mcp_llm_gateway_suite.Guardrail.Texts.{contents, json_contents}
use mcp_llm_gateway_suite.Guardrail.Spoken.{
  Told, pending, settled, Hears, unchanged, flushed-policy,
}
use mcp_llm_gateway_suite.Guardrail.Heard.{Hears-nothing, handle_choices-Rebuilds}

pub handle_frame_empty :
    (u : Unicode) (fs : Fields) (st : Sse)
    → choices_of fs ≡ []
    → is_null (finish_reason_of fs) ≡ true
    → handle_frame u fs st ≡ some (frame (object fs) ∷ [], st)
unfolding handle_frame
handle_frame_empty u fs st h goes_on = rw (h, handle_frame, goes_on)

handle_frame_ends :
    (u : Unicode) (fs : Fields) (st : Sse)
    → choices_of fs ≡ []
    → is_null (finish_reason_of fs) ≡ false
    → handle_frame u fs st
      ≡ some ((flush_sse u fs st).0 ++ frame (object fs) ∷ [], (flush_sse u fs st).1)
unfolding handle_frame
handle_frame_ends u fs st h ends = rw (h, handle_frame, ends)

pub handle_frame_choices :
    (u : Unicode) (fs : Fields) (st : Sse) (choice : Fields) (more rebuilt : List Fields)
    (emitted : Bool) (r : Redactor) (flushed : Bool)
    → choices_of fs ≡ choice ∷ more
    → handle_choices u (not (is_null (finish_reason_of fs))) st.flushed st.redactor (choice ∷ more)
      ≡ some (rebuilt, emitted, r, flushed)
    → handle_frame u fs st
      ≡ some (
        frame_events (not (is_null (finish_reason_of fs))) emitted fs (choice ∷ more) rebuilt,
        record st { redactor = r; flushed = flushed },
      )
unfolding handle_frame
handle_frame_choices u fs st choice more rebuilt emitted r flushed h e = rw (h, handle_frame, e)

json_contents-object :
    (fs : Fields) (choices : List Fields)
    → choices_of fs ≡ choices
    → json_contents (object fs) ≡ contents choices
unfolding json_contents
json_contents-object fs choices h = ap contents h

flush_sse_tail :
    (u : Unicode) (template : Fields) (st : Sse)
    → st.flushed ≡ false
    → (flush_sse u template st).0 ≡ tail_event template (flush u st.redactor).0
unfolding flush_sse tail_event
flush_sse_tail u template st h = cc

module _ (u : Unicode) (knows : KnowsAscii u) where
  pub Told-open :
      (xs ys : List Text) (said : Text) (flushed : Bool) (r : Redactor)
      → Told u knows xs ys said flushed r
      → flushed ≡ false
      → (ys ≡ []) × Owes u knows default_placeholder (concat xs) said r
  Told-open xs ys said flushed r (pending o) h = (refl, o)
  Told-open xs ys said flushed r (settled e) h = absurd cc

  -- What has been told at a state of the generator.
  abbrev pub At : List Text → List Text → Text → Sse → Type 0
  At xs ys said st = Told u knows xs ys said st.flushed st.redactor

  -- A step of the generator that hears some texts.
  pub record Tells (xs ys : List Text) (said : Text) (new : List Text)
      (o : Option (List Event × Sse)) : Type 0 where
    pub events : List Event
    pub state : Sse
    pub result : o ≡ some (events, state)
    pub hears : Hears u knows xs ys said new (spoken events) state.flushed state.redactor

  pub flush_sse-Hears :
      (template : Fields) (st : Sse) (xs ys : List Text) (said : Text)
      → At xs ys said st
      → Hears u knows xs ys said []
          (spoken (flush_sse u template st).0)
          (flush_sse u template st).1.flushed
          (flush_sse u template st).1.redactor
  unfolding event_texts
  flush_sse-Hears template st xs ys said t = elim (Bool-cases st.flushed) [
    | inl before ↦
        rw (flush_sse_done u template st before)
          (Hears-nothing u knows xs ys said st.flushed st.redactor t)
    | inr now ↦
        let (empty, o) = Told-open xs ys said st.flushed st.redactor t now in
        let tail = (flush u st.redactor).0 in
        let says : spoken (flush_sse u template st).0 ≡ tail =
          ap spoken (flush_sse_tail u template st now) ∙ spoken-tail_event template tail in
        rw (says, flush_sse_now u template st now, empty)
          (unchanged u knows xs [] said [] tail (flush u st.redactor).1
            (flushed-policy u knows xs said st.redactor o))
  ]

  -- A flush and one more event that says nothing.
  pub flush_sse-Tells :
      (template : Fields) (st : Sse) (xs ys : List Text) (said : Text) (e : Event)
      → spoken (e ∷ []) ≡ []
      → At xs ys said st
      → Tells xs ys said []
          (some ((flush_sse u template st).0 ++ e ∷ [], (flush_sse u template st).1))
  flush_sse-Tells template st xs ys said e silent t =
      let says : spoken ((flush_sse u template st).0 ++ e ∷ [])
          ≡ spoken (flush_sse u template st).0 =
        spoken-append (flush_sse u template st).0 (e ∷ [])
        ∙ ap (λ (t : Text). spoken (flush_sse u template st).0 ++ t) silent
        ∙ append-nil (spoken (flush_sse u template st).0) in
      record {
        events = (flush_sse u template st).0 ++ e ∷ [];
        state = (flush_sse u template st).1;
        result = refl;
        hears =
            subst
              (λ out.
                Hears u knows xs ys said [] out (flush_sse u template st).1.flushed
                  (flush_sse u template st).1.redactor)
              (sym says) (flush_sse-Hears template st xs ys said t);
      }

  pub silent_event :
      (st : Sse) (xs ys : List Text) (said : Text) (e : List Event)
      → spoken e ≡ []
      → At xs ys said st
      → Tells xs ys said [] (some (e, st))
  silent_event st xs ys said e silent t = record {
    events = e;
    state = st;
    result = refl;
    hears =
        subst (λ out. Hears u knows xs ys said [] out st.flushed st.redactor) (sym silent)
          (Hears-nothing u knows xs ys said st.flushed st.redactor t);
  }

  frame-silent :
      (fs : Fields)
      → choices_of fs ≡ []
      → (spoken (frame (object fs) ∷ []) ≡ []) × (json_contents (object fs) ≡ [])
  unfolding event_texts json_contents contents
  frame-silent fs h = (rw h, rw h)

  pub handle_frame-Tells :
      (fs : Fields) (st : Sse) (xs ys : List Text) (said : Text)
      → At xs ys said st
      → Tells xs ys said (json_contents (object fs)) (handle_frame u fs st)
  handle_frame-Tells fs st xs ys said t = elim (List-cases (choices_of fs)) [
    | inl nothing ↦
        let (silent, empty) = frame-silent fs nothing in
        rw empty (elim (Bool-cases (is_null (finish_reason_of fs))) [
          | inl goes_on ↦
              rw (handle_frame_empty u fs st nothing goes_on)
                (silent_event st xs ys said (frame (object fs) ∷ []) silent t)
          | inr ends ↦
              rw (handle_frame_ends u fs st nothing ends)
                (flush_sse-Tells fs st xs ys said (frame (object fs)) silent t)
        ])
    | inr (choice, more, found) ↦
        let finished = not (is_null (finish_reason_of fs)) in
        let b =
          handle_choices-Rebuilds u knows finished st.flushed st.redactor (choice ∷ more) xs ys said
            t in
        let says = spoken-frame_events finished b.emitted fs (choice ∷ more) b.rebuilt b.quiet in
        record {
          events = frame_events finished b.emitted fs (choice ∷ more) b.rebuilt;
          state = record st { redactor = b.redactor; flushed = b.flushed };
          result =
              handle_frame_choices u fs st choice more b.rebuilt b.emitted b.redactor b.flushed
                found b.result;
          hears =
              subst
                (λ new.
                  Hears u knows xs ys said new
                    (spoken (frame_events finished b.emitted fs (choice ∷ more) b.rebuilt))
                    b.flushed b.redactor)
                (sym (json_contents-object fs (choice ∷ more) found))
                (subst
                  (λ out.
                    Hears u knows xs ys said (contents (choice ∷ more)) out b.flushed b.redactor)
                  (sym says) b.hears);
        }
  ]
