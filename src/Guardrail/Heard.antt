-- ===== src/Guardrail/Heard.antt =====
-- The loop over the choices of a frame in task3_streaming_guardrail/llm_gateway.py: what it says for
-- what it hears.
use mcp_llm_gateway_suite.Base.{
  ◌≡◌, refl, ◌∙◌, sym, ap, subst, Bool, true, false, ◌||◌, Option, none, some, List, [], ◌∷◌, ◌++◌,
  inl, inr, Option-cases,
}
use mathlib.Core.List.{append_assoc, append-nil}
use mcp_llm_gateway_suite.Base.Text.{Text}
use mcp_llm_gateway_suite.Json.{Fields}
use mcp_llm_gateway_suite.Regex.{Unicode}
use mcp_llm_gateway_suite.Redactor.{Redactor}
use mcp_llm_gateway_suite.Redactor.Bounds.{concat}
use mcp_llm_gateway_suite.Redactor.Local.{KnowsAscii}
use mcp_llm_gateway_suite.Guardrail.Frames.{content_of, without_content}
use mcp_llm_gateway_suite.Guardrail.Sse.{safe_text, rebuilt_choice, handle_choices}
use mcp_llm_gateway_suite.Guardrail.Texts.{
  contents, concat-append, contents-append, concat-rebuilt_choice, content_of-without_content,
}
use mcp_llm_gateway_suite.Guardrail.Spoken.{Told, Hears, safe_text-Hears}

pub or_false : (a b : Bool) → (a || b) ≡ false → (a ≡ false) × (b ≡ false)
or_false true b h = absurd cc
or_false false b h = (refl, h)

module _ (u : Unicode) (knows : KnowsAscii u) where
  pub Hears-nothing :
      (xs ys : List Text) (said : Text) (flushed : Bool) (r : Redactor)
      → Told u knows xs ys said flushed r
      → Hears u knows xs ys said [] [] flushed r
  Hears-nothing xs ys said flushed r t = record {
    more = [];
    after = ys;
    in_order = ap (λ (t : List Text). t ++ ys) (append-nil xs) ∙ sym (append-nil (xs ++ ys));
    told =
        subst (λ zs. Told u knows zs ys (said ++ []) flushed r) (sym (append-nil xs))
          (subst (λ s. Told u knows xs ys s flushed r) (sym (append-nil said)) t);
  }

  pub Hears-Hears :
      (xs ys : List Text) (said : Text) (new new' : List Text) (out out' : Text)
      (flushed flushed' : Bool) (r r' : Redactor)
      → (h : Hears u knows xs ys said new out flushed r)
      → Hears u knows (xs ++ h.more) h.after (said ++ out) new' out' flushed' r'
      → Hears u knows xs ys said (new ++ new') (out ++ out') flushed' r'
  Hears-Hears xs ys said new new' out out' flushed flushed' r r' h h' = record {
    more = h.more ++ h'.more;
    after = h'.after;
    in_order =
        ap (λ (t : List Text). t ++ h'.after) (sym (append_assoc xs h.more h'.more))
        ∙ h'.in_order
        ∙ ap (λ (t : List Text). t ++ new') h.in_order
        ∙ append_assoc (xs ++ ys) new new';
    told =
        subst (λ zs. Told u knows zs h'.after (said ++ (out ++ out')) flushed' r')
          (append_assoc xs h.more h'.more)
          (subst (λ s. Told u knows ((xs ++ h.more) ++ h'.more) h'.after s flushed' r')
            (append_assoc said out out') h'.told);
  }

  contents-none :
      (choice : Fields) (choices : List Fields)
      → content_of choice ≡ none
      → contents (choice ∷ choices) ≡ contents choices
  unfolding contents
  contents-none choice choices h = rw (contents, h)

  contents-some :
      (choice : Fields) (choices : List Fields) (text : Text)
      → content_of choice ≡ some text
      → contents (choice ∷ choices) ≡ text ∷ contents choices
  unfolding contents
  contents-some choice choices text h = rw (contents, h)

  -- What the loop gives, and what it has said with it.
  pub record Rebuilds (xs ys : List Text) (said : Text) (choices : List Fields)
      (o : Option (List Fields × Bool × Redactor × Bool)) : Type 0 where
    pub rebuilt : List Fields
    pub emitted : Bool
    pub redactor : Redactor
    pub flushed : Bool
    pub result : o ≡ some (rebuilt, emitted, redactor, flushed)
    pub hears :
        Hears u knows xs ys said (contents choices) (concat (contents rebuilt)) flushed redactor
    pub quiet : emitted ≡ false → concat (contents rebuilt) ≡ []

  quiet_choice :
      (finished : Bool) (choice : Fields) (safe : Text)
      → (rebuilt_choice finished choice safe).1 ≡ false
      → safe ≡ []
  unfolding rebuilt_choice
  quiet_choice finished choice [] h = refl
  quiet_choice finished choice (c ∷ safe) h = absurd cc

  module _ (finished flushed : Bool) (r : Redactor) (choice : Fields) (choices : List Fields)
      (xs ys : List Text) (said : Text) where
    -- A choice without a text.
    Rebuilds-none :
        content_of choice ≡ none
        → Rebuilds xs ys said choices (handle_choices u finished flushed r choices)
        → Rebuilds xs ys said
            (choice ∷ choices)
            (handle_choices u finished flushed r (choice ∷ choices))
    unfolding handle_choices
    Rebuilds-none nothing b =
        let same =
          contents-none (without_content choice) b.rebuilt
            (content_of-without_content choice nothing) in
        record {
          rebuilt = without_content choice ∷ b.rebuilt;
          emitted = b.emitted;
          redactor = b.redactor;
          flushed = b.flushed;
          result = let e = b.result in rw (nothing, handle_choices, e) refl;
          hears =
              subst
                (λ new.
                  Hears u knows xs ys said new
                    (concat (contents (without_content choice ∷ b.rebuilt))) b.flushed b.redactor)
                (sym (contents-none choice choices nothing))
                (subst (λ out. Hears u knows xs ys said (contents choices) out b.flushed b.redactor)
                  (sym (ap concat same)) b.hears);
          quiet = λ h. ap concat same ∙ b.quiet h;
        }

    -- A choice with a text.
    Rebuilds-some :
        (content safe : Text) (r' : Redactor) (flushed' : Bool)
        → content_of choice ≡ some content
        → safe_text u finished flushed r content ≡ some (safe, r', flushed')
        → (h : Hears u knows xs ys said (content ∷ []) safe flushed' r')
        → Rebuilds
            (xs ++ h.more)
            h.after
            (said ++ safe)
            choices
            (handle_choices u finished flushed' r' choices)
        → Rebuilds xs ys said
            (choice ∷ choices)
            (handle_choices u finished flushed r (choice ∷ choices))
    unfolding handle_choices
    Rebuilds-some content safe r' flushed' found e h b =
        let here = rebuilt_choice finished choice safe in
        let says : concat (contents (here.0 ++ b.rebuilt)) ≡ safe ++ concat (contents b.rebuilt) =
          ap concat (contents-append here.0 b.rebuilt)
          ∙ concat-append (contents here.0) (contents b.rebuilt)
          ∙ ap (λ (t : Text). t ++ concat (contents b.rebuilt))
              (concat-rebuilt_choice finished choice safe) in
        record {
          rebuilt = here.0 ++ b.rebuilt;
          emitted = here.1 || b.emitted;
          redactor = b.redactor;
          flushed = b.flushed;
          result = let e' = b.result in rw (found, handle_choices, e, e') refl;
          hears =
              subst
                (λ new.
                  Hears u knows xs ys said new (concat (contents (here.0 ++ b.rebuilt))) b.flushed
                    b.redactor)
                (sym (contents-some choice choices content found))
                (subst
                  (λ out.
                    Hears u knows xs ys said (content ∷ contents choices) out b.flushed b.redactor)
                  (sym says)
                  (Hears-Hears xs ys said (content ∷ []) (contents choices) safe
                    (concat (contents b.rebuilt)) flushed' b.flushed r' b.redactor h b.hears));
          quiet = λ silent.
              let (one, others) = or_false here.1 b.emitted silent in
              says
              ∙ ap (λ (t : Text). t ++ concat (contents b.rebuilt))
                  (quiet_choice finished choice safe one)
              ∙ b.quiet others;
        }

  pub handle_choices-Rebuilds :
      (finished flushed : Bool) (r : Redactor) (choices : List Fields) (xs ys : List Text)
      (said : Text)
      → Told u knows xs ys said flushed r
      → Rebuilds xs ys said choices (handle_choices u finished flushed r choices)
  unfolding handle_choices contents
  handle_choices-Rebuilds finished flushed r [] xs ys said t = record {
    rebuilt = [];
    emitted = false;
    redactor = r;
    flushed = flushed;
    result = refl;
    hears = Hears-nothing xs ys said flushed r t;
    quiet = λ h. refl;
  }
  handle_choices-Rebuilds finished flushed r (choice ∷ choices) xs ys said t =
      elim (Option-cases (content_of choice)) [
        | inl nothing ↦
            Rebuilds-none finished flushed r choice choices xs ys said nothing
              (handle_choices-Rebuilds finished flushed r choices xs ys said t)
        | inr (content, found) ↦
            let (safe, r', flushed', e, h) =
              safe_text-Hears u knows finished flushed r content xs ys said t in
            Rebuilds-some finished flushed r choice choices xs ys said content safe r' flushed'
              found e h
              (handle_choices-Rebuilds finished flushed' r' choices (xs ++ h.more) h.after
                (said ++ safe) h.told)
      ]
