-- ===== src/Gateway/Policy.antt =====
-- The authorization of tools, after task2_mcp_gateway/policy.py.
use mcp_llm_gateway_suite.Base.{
  ℕ, ◌≡◌, Bool, true, false, ◌&&◌, ◌||◌, List, [], ◌∷◌, ◌++◌, leb, ltb, ◌==◌, if◌then◌else◌, length,
  all_of,
}
use mcp_llm_gateway_suite.Base.Text.{Text, codes, text_eq, starts_with, strip, lower}
use mcp_llm_gateway_suite.Gateway.Auth.{Principal}

-- `unicodedata.normalize("NFKC", _)` and `str.casefold`.
pub record Folding : Type 0 where
  pub nfkc : Text → Text
  pub casefold : Text → Text

-- What the two do to a text of ASCII.
pub record IsFolding (f : Folding) : Type 0 where
  pub nfkc_ascii : (s : Text) → all_of (λ c. leb c 127) s ≡ true → f.nfkc s ≡ s
  pub casefold_ascii : (s : Text) → all_of (λ c. leb c 127) s ≡ true → f.casefold s ≡ lower s

-- `[A-Za-z0-9_.\-]`
unfoldable pub tool_name_char : ℕ → Bool
tool_name_char c =
    (leb 65 c && leb c 90)
    || (leb 97 c && leb c 122)
    || (leb 48 c && leb c 57)
    || c == 95
    || c == 46
    || c == 45

-- `TOOL_NAME_RE` at a text.
unfoldable pub is_wellformed_tool_name : Text → Bool
unfolding tool_name_char
is_wellformed_tool_name name =
    leb 1 (length name) && leb (length name) 128 && all_of tool_name_char name

-- `[A-Za-z0-9_./-]`
unfoldable pub method_char : ℕ → Bool
unfolding tool_name_char
method_char c = tool_name_char c || c == 47

-- `METHOD_NAME_RE` at a text.
unfoldable pub is_wellformed_method : Text → Bool
unfolding method_char
is_wellformed_method method =
    leb 1 (length method) && leb (length method) 128 && all_of method_char method

unfoldable pub normalize_method : Folding → Text → Text
unfolding strip
normalize_method f method = f.casefold (strip (f.nfkc method))

unfoldable pub normalize_tool_name : Folding → Text → Text
unfolding strip
normalize_tool_name f name = f.casefold (strip (f.nfkc name))

-- What the f-strings of `reason` are made of.
pub data Reason : Type 0 where
  satisfies : Text → Text → Reason
  requires : Text → List Text → Text → Reason
  unrestricted : Reason
  not_listed : Text → Reason

pub record Decision : Type 0 where
  pub allowed : Bool
  pub reason : Reason
  pub rule : Text

-- `prefix_roles` in the order of the dict.
pub record ToolPolicy : Type 0 where
  pub prefix_roles : List (Text × List Text)
  pub default_allow : Bool

abbrev pub default_policy : ToolPolicy
default_policy = record {
  prefix_roles = (codes "admin_", codes "admin" ∷ []) ∷ [];
  default_allow = true;
}

-- `role in allowed_roles`
unfoldable pub has_role : Text → List Text → Bool
unfolding text_eq
has_role role [] = false
has_role role (r ∷ rs) = text_eq role r || has_role role rs

-- The loop of `evaluate`.
unfoldable pub evaluate_rules : Bool → Text → Text → Principal → List (Text × List Text) → Decision
unfolding starts_with has_role
evaluate_rules default_allow tool normalized p [] =
    if default_allow
    then record { allowed = true; reason = unrestricted; rule = codes "default_allow" }
    else record { allowed = false; reason = not_listed tool; rule = codes "default_deny" }
evaluate_rules default_allow tool normalized p ((prefix, roles) ∷ rules) =
    let rest = evaluate_rules default_allow tool normalized p rules in
    if starts_with normalized prefix
    then if has_role p.role roles
      then record {
        allowed = true;
        reason = satisfies p.role prefix;
        rule = codes "prefix:" ++ prefix;
      }
      else record {
        allowed = false;
        reason = requires tool roles p.role;
        rule = codes "prefix:" ++ prefix;
      }
    else rest

unfoldable pub evaluate : Folding → ToolPolicy → Text → Principal → Decision
unfolding evaluate_rules normalize_tool_name
evaluate f policy tool p =
    evaluate_rules policy.default_allow tool (normalize_tool_name f tool) p policy.prefix_roles

unfoldable pub visible_to : Folding → ToolPolicy → Text → Principal → Bool
unfolding evaluate
visible_to f policy tool p = (evaluate f policy tool p).allowed

-- The roles of the first prefix that a normalised name has, as `authorize` reports them.
unfoldable pub required_roles : Text → List (Text × List Text) → List Text
unfolding starts_with
required_roles normalized [] = []
required_roles normalized ((prefix, roles) ∷ rules) =
    let rest = required_roles normalized rules in
    if starts_with normalized prefix then roles else rest

-- `a <= b` on `str`
unfoldable pub text_le : Text → Text → Bool
text_le [] t = true
text_le (c ∷ s) [] = false
text_le (c ∷ s) (d ∷ t) = let rest = text_le s t in if c == d then rest else ltb c d

unfoldable pub insert_sorted : Text → List Text → List Text
unfolding text_le
insert_sorted s [] = s ∷ []
insert_sorted s (t ∷ ts) =
    let rest = insert_sorted s ts in if text_le s t then s ∷ t ∷ ts else t ∷ rest

-- `sorted(roles)`
unfoldable pub sorted : List Text → List Text
unfolding insert_sorted
sorted [] = []
sorted (s ∷ ss) = insert_sorted s (sorted ss)
