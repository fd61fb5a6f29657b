-- ===== src/Redactor/Bounds.antt =====
-- The state of the redactor of task3_streaming_guardrail/redactor.py over a whole stream.
use mcp_llm_gateway_suite.Base.{
  ℕ, ◌+◌, ◌-◌, ◌≤◌, ◌<◌, ◌≡◌, refl, sym, subst, ◌∙◌, ap, false, Option, none, some, List, [], ◌∷◌,
  ◌++◌, length, drop, take, arith, length-drop, length-append, ◌==◌, take-append-drop, drop-append,
  drop-drop,
}
use mathlib.Core.List.{append_assoc, append-nil}
use mcp_llm_gateway_suite.Base.Text.{Text}
use mcp_llm_gateway_suite.Regex.{Unicode}
use mcp_llm_gateway_suite.Redactor.Emit.{last_characters}
use mcp_llm_gateway_suite.Redactor.Stream.{
  Redactor, split_point, feed_open, feed, buffered, lookbehind_context, max_buffer,
  max_holdback_default, new_redactor,
}
use mcp_llm_gateway_suite.Redactor.Guard.{holdback-le, IsCut, split_point-IsCut}

-- The text of a list of chunks.
abbrev pub concat : List Text → Text
concat [] = []
concat (c ∷ cs) = c ++ concat cs

-- A stream of chunks through an open redactor; `none` if a feed raises.
unfoldable pub feed_all : Unicode → Redactor → List Text → Option (List Text × Redactor)
feed_all u r [] = some ([], r)
feed_all u r (c ∷ cs) = elim (feed u r c) [
  | none ↦ none
  | some (emit, r') ↦ elim (feed_all u r' cs) [
    | none ↦ none
    | some (out, end) ↦ some (emit ∷ out, end)
  ]
]

-- The state after a text has been fed: each character of it is either sent, that is passed on
-- redacted, or still in the buffer, the context is the end of what was sent, and both are bounded.
pub record IsAfter (text : Text) (r : Redactor) : Type 0 where
  pub small : r.max_holdback ≤ max_holdback_default
  pub still_open : r.is_closed ≡ false
  pub sent : Text
  pub conserved : sent ++ r.buffer ≡ text
  pub context : r.left_context ≡ last_characters lookbehind_context sent
  pub short_context : length r.left_context ≤ lookbehind_context
  pub short_buffer : buffered r ≤ max_buffer

last_characters-append :
    (n : ℕ) (s t : Text)
    → 0 < n
    → last_characters n (last_characters n s ++ t) ≡ last_characters n (s ++ t)
unfolding last_characters
last_characters-append n s t h =
    let positive : (n == 0) ≡ false = ground arith in
    let k = length s - n in
    let inside : k ≤ length s = omega arith in
    let lengths = length-append (drop k s) t in
    let total = length-append s t in
    let dropped = length-drop k s in
    let sum : k + (length (drop k s ++ t) - n) ≡ length (s ++ t) - n = omega arith in
    let j = length (drop k s ++ t) - n in
    rw positive (
      ap (drop j) (sym (drop-append k s t inside))
      ∙ drop-drop j k (s ++ t)
      ∙ ap (λ (i : ℕ). drop i (s ++ t)) sum)

length-last_characters-le_limit : (n : ℕ) (s : Text) → 0 < n → length (last_characters n s) ≤ n
unfolding last_characters
length-last_characters-le_limit n s h = ground (arith, length-drop (length s - n) s)

-- One chunk, on an open redactor.
module _ (u : Unicode) (text : Text) (r : Redactor) (a : IsAfter text r) (chunk : Text) where
  abbrev buffer : Text
  buffer = r.buffer ++ chunk

  abbrev safe : ℕ
  safe = split_point u r buffer - length r.left_context

  cut : IsCut u r buffer
  cut = split_point-IsCut u r buffer

  feed_open-IsAfter : IsAfter (text ++ chunk) (feed_open u r chunk).1
  unfolding feed_open buffered
  feed_open-IsAfter = record {
    small = a.small;
    still_open = a.still_open;
    sent = a.sent ++ take safe buffer;
    conserved =
        append_assoc a.sent (take safe buffer) (drop safe buffer)
        ∙ ap (λ s. a.sent ++ s) (take-append-drop safe buffer)
        ∙ sym (append_assoc a.sent r.buffer chunk)
        ∙ ap (λ s. s ++ chunk) a.conserved;
    context =
        ap (λ c. last_characters lookbehind_context (c ++ take safe buffer)) a.context
        ∙ last_characters-append lookbehind_context a.sent (take safe buffer) (omega arith);
    short_context =
        length-last_characters-le_limit lookbehind_context (r.left_context ++ take safe buffer)
          (omega arith);
    short_buffer = omega (
      arith,
      length-drop safe buffer,
      cut.near,
      cut.above,
      holdback-le u buffer r.max_holdback,
      a.small,
    );
  }

pub feed_of_open :
    (u : Unicode) (r : Redactor) (chunk : Text)
    → r.is_closed ≡ false
    → (length chunk == 0) ≡ false
    → feed u r chunk ≡ some (feed_open u r chunk)
unfolding feed
feed_of_open u r chunk still_open full = cc

feed-IsAfter :
    (u : Unicode) (text : Text) (r : Redactor) (chunk : Text)
    → IsAfter text r
    → (emit : Text) × (r' : Redactor) × (feed u r chunk ≡ some (emit, r'))
      × IsAfter (text ++ chunk) r'
unfolding feed
feed-IsAfter u text r [] a =
    ([], r, rw a.still_open refl, subst (λ t. IsAfter t r) (sym (append-nil text)) a)
feed-IsAfter u text r (c ∷ cs) a =
    let full : (length (c ∷ cs) == 0) ≡ false = ground arith in
    (
      (feed_open u r (c ∷ cs)).0,
      (feed_open u r (c ∷ cs)).1,
      feed_of_open u r (c ∷ cs) a.still_open full,
      feed_open-IsAfter u text r a (c ∷ cs),
    )

feed_all-IsAfter_from :
    (u : Unicode) (text : Text) (r : Redactor) (chunks : List Text)
    → IsAfter text r
    → (out : List Text) × (end : Redactor) × (feed_all u r chunks ≡ some (out, end))
      × IsAfter (text ++ concat chunks) end
unfolding feed_all
feed_all-IsAfter_from u text r [] a =
    ([], r, refl, subst (λ t. IsAfter t r) (sym (append-nil text)) a)
feed_all-IsAfter_from u text r (c ∷ cs) a =
    let (emit, r', fed, a') = feed-IsAfter u text r c a in
    let (out, end, all, after) = feed_all-IsAfter_from u (text ++ c) r' cs a' in
    (
      emit ∷ out,
      end,
      rw (fed, feed_all, all) refl,
      subst (λ t. IsAfter t end) (append_assoc text c (concat cs)) after,
    )

-- Whatever the chunks, no feed of a new redactor with at most the default 400 characters of
-- holdback raises. Afterwards the context is the end of a text that, followed by the buffer, is the
-- text fed; the context has at most 400 characters and the buffer at most 800.
pub feed_all-IsAfter :
    (u : Unicode) (h : ℕ) (placeholder : Text) (chunks : List Text)
    → h ≤ max_holdback_default
    → (out : List Text) × (end : Redactor) × (feed_all u (new_redactor h placeholder) chunks
        ≡ some (out, end))
      × IsAfter (concat chunks) end
unfolding new_redactor buffered last_characters
feed_all-IsAfter u h placeholder chunks small =
    feed_all-IsAfter_from u [] (new_redactor h placeholder) chunks record {
      small = small;
      still_open = refl;
      sent = [];
      conserved = refl;
      context = refl;
      short_context = omega arith;
      short_buffer = omega arith;
    }
