-- ===== src/Gateway/Spelling.antt =====
-- Spellings of `tools/call` and of the names of tools, which task2_mcp_gateway/policy.py folds.
use mcp_llm_gateway_suite.Base.{
  ℕ, ◌≡◌, refl, sym, ap, ◌∙◌, subst, inl, inr, Bool, true, not, ◌&&◌, none, some, [], ◌∷◌, leb,
  all_of, arith,
}
use mathlib.Core.List.{reverse, reverse_aux, reverse-reverse}
use mcp_llm_gateway_suite.Base.Text.{
  Text, codes, text_eq, text_eq_iff, starts_with, lstrip, strip, lower, is_space,
}
use mcp_llm_gateway_suite.Json.{str, object, Fields, get}
use mcp_llm_gateway_suite.Gateway.Auth.{Principal}
use mcp_llm_gateway_suite.Gateway.Policy.{
  Folding, IsFolding, tool_name_char, method_char, is_wellformed_tool_name, is_wellformed_method,
  normalize_method, normalize_tool_name, has_role, evaluate_rules, evaluate, default_policy,
}
use mcp_llm_gateway_suite.Gateway.Authorize.{App, authorize}
use mcp_llm_gateway_suite.Gateway.Guard.{IsAllowedCall, authorize-IsPermitted}

-- A character of ASCII that is not white space.
abbrev is_plain : ℕ → Bool
is_plain c = leb c 127 && not (is_space c)

method_char_plain : (c : ℕ) → method_char c ≡ true → is_plain c ≡ true
unfolding method_char is_space
method_char_plain c h = ground arith

tool_name_char_plain : (c : ℕ) → tool_name_char c ≡ true → is_plain c ≡ true
unfolding tool_name_char is_space
tool_name_char_plain c h = ground arith

all_of_mono :
    (p q : ℕ → Bool)
    → ((c : ℕ) → p c ≡ true → q c ≡ true)
    → (s : Text) → all_of p s ≡ true
    → all_of q s ≡ true
all_of_mono p q f [] h = refl
all_of_mono p q f (c ∷ s) h = ground (arith, f c (ground arith), all_of_mono p q f s (ground arith))

all_of-reverse_aux :
    (p : ℕ → Bool) (s t : Text)
    → all_of p s ≡ true
    → all_of p t ≡ true
    → all_of p (reverse_aux s t) ≡ true
all_of-reverse_aux p [] t h k = k
all_of-reverse_aux p (c ∷ s) t h k = all_of-reverse_aux p s (c ∷ t) (ground arith) (ground arith)

lstrip_plain : (s : Text) → all_of is_plain s ≡ true → lstrip s ≡ s
unfolding lstrip is_space
lstrip_plain [] h = refl
lstrip_plain (c ∷ s) h = ground arith

strip_plain : (s : Text) → all_of is_plain s ≡ true → strip s ≡ s
unfolding strip
strip_plain s h =
    let back = lstrip_plain (reverse s) (all_of-reverse_aux is_plain s [] h refl) in
    rw (lstrip_plain s h, back) (reverse-reverse s)

ascii_plain : (c : ℕ) → is_plain c ≡ true → leb c 127 ≡ true
ascii_plain c h = ground arith

-- The folding of a text of plain characters is its lower case.
fold_plain :
    (f : Folding) (s : Text)
    → IsFolding f
    → all_of is_plain s ≡ true
    → f.casefold (strip (f.nfkc s)) ≡ lower (strip s)
fold_plain f s laws h =
    let ascii = all_of_mono is_plain (λ c. leb c 127) ascii_plain s h in
    rw (laws.nfkc_ascii s ascii, strip_plain s h) (laws.casefold_ascii s ascii)

-- The first rule of the default policy.
admin_required :
    (f : Folding) (name : Text) (p : Principal)
    → starts_with (normalize_tool_name f name) (codes "admin_") ≡ true
    → (evaluate f default_policy name p).allowed ≡ true
    → p.role ≡ codes "admin"
unfolding evaluate evaluate_rules has_role
admin_required f name p h k =
    let is_role : text_eq p.role (codes "admin") ≡ true = ground arith in
    (text_eq_iff p.role (codes "admin")).0 is_role

wellformed_method_plain : (m : Text) → is_wellformed_method m ≡ true → all_of is_plain m ≡ true
unfolding is_wellformed_method
wellformed_method_plain m h = all_of_mono method_char is_plain method_char_plain m (ground arith)

wellformed_name_plain : (n : Text) → is_wellformed_tool_name n ≡ true → all_of is_plain n ≡ true
unfolding is_wellformed_tool_name
wellformed_name_plain n h =
    all_of_mono tool_name_char is_plain tool_name_char_plain n (ground arith)

str_injective : (s t : Text) → some (str s) ≡ some (str t) → s ≡ t
str_injective s t e = cc

object_injective : (fs gs : Fields) → some (object fs) ≡ some (object gs) → fs ≡ gs
object_injective fs gs e = cc

allowed_admin :
    (app : App) (p : Principal) (payload params : Fields) (n : Text)
    → IsFolding app.folding
    → app.policy ≡ default_policy
    → IsAllowedCall app p payload
    → get (codes "params") payload ≡ some (object params)
    → get (codes "name") params ≡ some (str n)
    → starts_with (lower (strip n)) (codes "admin_") ≡ true
    → p.role ≡ codes "admin"
unfolding normalize_tool_name
allowed_admin app p payload params n laws default a has_params has_name admin =
    let same_params = object_injective params a.params (sym has_params ∙ a.has_params) in
    let same : n ≡ a.name =
      str_injective n a.name
        (sym has_name ∙ ap (λ fs. get (codes "name") fs) same_params ∙ a.has_name) in
    let fold = fold_plain app.folding a.name laws (wellformed_name_plain a.name a.wellformed) in
    admin_required app.folding a.name p
      (rw fold (subst (λ s. starts_with (lower (strip s)) (codes "admin_") ≡ true) same admin))
      (subst (λ policy. (evaluate app.folding policy a.name p).allowed ≡ true) default a.allowed)

-- With Python's folding of ASCII and the default policy, whoever gets a message past the
-- authorization that, up to the case of ASCII letters and white space around them, calls a tool
-- whose name begins with "admin_" has the role "admin".
pub authorize_admin :
    (app : App) (p : Principal) (request_id : Text) (payload params : Fields) (m n : Text)
    → IsFolding app.folding
    → app.policy ≡ default_policy
    → get (codes "method") payload ≡ some (str m)
    → lower (strip m) ≡ codes "tools/call"
    → get (codes "params") payload ≡ some (object params)
    → get (codes "name") params ≡ some (str n)
    → starts_with (lower (strip n)) (codes "admin_") ≡ true
    → (authorize app p request_id payload).denial ≡ none
    → p.role ≡ codes "admin"
unfolding normalize_method
authorize_admin app p request_id payload params m n laws default has_method calls has_params
      has_name admin allowed =
    let g = authorize-IsPermitted app p request_id payload allowed in
    let same : m ≡ g.method = str_injective m g.method (sym has_method ∙ g.has_method) in
    let fold =
      fold_plain app.folding g.method laws (wellformed_method_plain g.method g.wellformed) in
    elim g.call [
      | inl other ↦
          absurd (other (fold ∙ subst (λ s. lower (strip s) ≡ codes "tools/call") same calls))
      | inr a ↦ allowed_admin app p payload params n laws default a has_params has_name admin
    ]
