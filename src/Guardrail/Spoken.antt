-- ===== src/Guardrail/Spoken.antt =====
-- What `redact_sse_stream` of task3_streaming_guardrail/llm_gateway.py has said for what it has heard,
-- up to a choice.
use mcp_llm_gateway_suite.Base.{
  ◌≡◌, refl, ◌∙◌, sym, ap, subst, Bool, true, false, Option, some, List, [], ◌∷◌, ◌++◌, map,
}
use mathlib.Core.List.{append_assoc, append-nil, map-append}
use mcp_llm_gateway_suite.Base.Text.{Text}
use mcp_llm_gateway_suite.Regex.{Unicode}
use mcp_llm_gateway_suite.Redactor.{Redactor, default_placeholder, flush}
use mcp_llm_gateway_suite.Redactor.Bounds.{concat}
use mcp_llm_gateway_suite.Redactor.Complete.{redact_complete-redacted}
use mcp_llm_gateway_suite.Redactor.Reference.{redacted}
use mcp_llm_gateway_suite.Redactor.Local.{KnowsAscii}
use mcp_llm_gateway_suite.Redactor.Faithful.{Owes, feed-Owes, flush-Owes}
use mcp_llm_gateway_suite.Guardrail.Sse.{redact_once, safe_text}
use mcp_llm_gateway_suite.Guardrail.Texts.{concat-append}

module _ (u : Unicode) (knows : KnowsAscii u) where
  -- The texts before the flush are redacted as one, those after it each by itself.
  abbrev pub policy : List Text → List Text → Text
  policy xs ys = redact_once u (concat xs) ++ concat (map (redact_once u) ys)

  -- What was said for the texts heard before the flush and after it.
  pub data Told (xs : List Text) : List Text → Text → Bool → Redactor → Type 0 where
    pending :
        {said : Text} {r : Redactor}
        → Owes u knows default_placeholder (concat xs) said r
        → Told xs [] said false r
    settled :
        {ys : List Text} {said : Text} {r : Redactor} → said ≡ policy xs ys → Told xs ys said true r

  -- A step from one state to another that hears and says something.
  pub record Hears (xs ys : List Text) (said : Text) (new : List Text) (out : Text) (flushed : Bool)
      (r : Redactor) : Type 0 where
    pub more : List Text
    pub after : List Text
    pub in_order : (xs ++ more) ++ after ≡ (xs ++ ys) ++ new
    pub told : Told (xs ++ more) after (said ++ out) flushed r

  redact_once-redacted :
      (text : Text) → redact_once u text ≡ redacted u default_placeholder Option.none 0 text
  unfolding redact_once
  redact_once-redacted text = redact_complete-redacted u text _ default_placeholder

  concat-one : (xs : List Text) (x : Text) → concat (xs ++ x ∷ []) ≡ concat xs ++ x
  concat-one xs x = concat-append xs (x ∷ []) ∙ ap (λ (t : Text). concat xs ++ t) (append-nil x)

  policy_one :
      (xs ys : List Text) (y : Text) → policy xs ys ++ redact_once u y ≡ policy xs (ys ++ y ∷ [])
  policy_one xs ys y =
      let f = redact_once u in
      append_assoc (f (concat xs)) (concat (map f ys)) (f y)
      ∙ ap (λ (t : Text). f (concat xs) ++ t)
          (sym (concat-one (map f ys) (f y)) ∙ sym (ap concat (map-append f ys (y ∷ []))))

  -- A flush after an open redactor's texts.
  pub flushed-policy :
      (xs : List Text) (said : Text) (r : Redactor)
      → Owes u knows default_placeholder (concat xs) said r
      → said ++ (flush u r).0 ≡ policy xs []
  flushed-policy xs said r o =
      flush-Owes u knows default_placeholder (concat xs) said r o
      ∙ sym (redact_once-redacted (concat xs))
      ∙ sym (append-nil (redact_once u (concat xs)))

  one_more :
      (xs : List Text) (x said : Text) (r : Redactor)
      → Owes u knows default_placeholder (concat xs ++ x) said r
      → Owes u knows default_placeholder (concat (xs ++ x ∷ [])) said r
  one_more xs x said r o =
      subst (λ t. Owes u knows default_placeholder t said r) (sym (concat-one xs x)) o

  pub unchanged :
      (xs ys : List Text) (said : Text) (new : List Text) (out : Text) (r : Redactor)
      → said ++ out ≡ policy xs (ys ++ new)
      → Hears xs ys said new out true r
  unchanged xs ys said new out r e = record {
    more = [];
    after = ys ++ new;
    in_order =
        ap (λ (t : List Text). t ++ (ys ++ new)) (append-nil xs) ∙ sym (append_assoc xs ys new);
    told = subst (λ zs. Told zs (ys ++ new) (said ++ out) true r) (sym (append-nil xs)) (settled e);
  }

  -- A text for the content of a choice.
  abbrev Says : (xs ys : List Text) (said : Text) → Text → Option (Text × Redactor × Bool) → Type 0
  Says xs ys said content o =
      (safe : Text) × (r : Redactor) × (flushed : Bool) × (o ≡ some (safe, r, flushed))
      × Hears xs ys said (content ∷ []) safe flushed r

  pub safe_text-Hears :
      (finished flushed : Bool) (r : Redactor) (content : Text) (xs ys : List Text) (said : Text)
      → Told xs ys said flushed r
      → Says xs ys said content (safe_text u finished flushed r content)
  unfolding safe_text
  safe_text-Hears finished true r content xs ys said (settled e) = (
    redact_once u content,
    r,
    true,
    refl,
    unchanged xs ys said (content ∷ []) (redact_once u content) r
        (ap (λ (t : Text). t ++ redact_once u content) e ∙ policy_one xs ys content),
  )
  safe_text-Hears true false r content xs [] said (pending o) =
      let (emit, r', fed, o') =
        feed-Owes u knows default_placeholder (concat xs) said r content o in
      (
        emit ++ (flush u r').0,
        (flush u r').1,
        true,
        rw (fed, safe_text) refl,
        record {
          more = content ∷ [];
          after = [];
          in_order =
              append-nil (xs ++ content ∷ [])
              ∙ ap (λ (t : List Text). t ++ content ∷ []) (sym (append-nil xs));
          told = settled (
              sym (append_assoc said emit (flush u r').0)
              ∙ flushed-policy (xs ++ content ∷ []) (said ++ emit) r'
                  (one_more xs content (said ++ emit) r' o'));
        },
      )
  safe_text-Hears false false r content xs [] said (pending o) =
      let (emit, r', fed, o') =
        feed-Owes u knows default_placeholder (concat xs) said r content o in
      (
        emit,
        r',
        false,
        rw (fed, safe_text) refl,
        record {
          more = content ∷ [];
          after = [];
          in_order =
              append-nil (xs ++ content ∷ [])
              ∙ ap (λ (t : List Text). t ++ content ∷ []) (sym (append-nil xs));
          told = pending (one_more xs content (said ++ emit) r' o');
        },
      )
  safe_text-Hears finished false r content xs (y ∷ ys) said t = elim t [ ]
