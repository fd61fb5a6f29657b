-- ===== src/Json.antt =====
-- JSON values as the services build and read them with Python's `json`: a `dict` keeps the order in
-- which its keys were first set. `decimal n k` is the number n / 10 ^ k.
use mcp_llm_gateway_suite.Base.{
  ℕ, ◌≡◌, Bool, true, false, not, ◌&&◌, ◌||◌, leb, [], ◌∷◌, Option, none, some, if◌then◌else◌,
  arith,
}
use mcp_llm_gateway_suite.Base.Int.{ℤ}
use mcp_llm_gateway_suite.Base.Text.{Text, text_eq, text_eq_refl}

mutual
  pub data Json : Type 0 where
    null : Json
    boolean : Bool → Json
    number : ℤ → Json
    decimal : ℤ → ℕ → Json
    str : Text → Json
    array : Items → Json
    object : Fields → Json

  pub data Items : Type 0 where
    nil : Items
    item : Json → Items → Items

  pub data Fields : Type 0 where
    end : Fields
    field : Text → Json → Fields → Fields

-- `d.get(k)`
unfoldable pub get : Text → Fields → Option Json
get k end = none
get k (field j v fs) = if text_eq j k then some v else get k fs

-- `d[k] = v`
unfoldable pub put : Text → Json → Fields → Fields
put k v end = field k v end
put k v (field j u fs) = if text_eq j k then field j v fs else field j u (put k v fs)

-- `d.update(e)`
unfoldable pub update : Fields → Fields → Fields
unfolding put
update d end = d
update d (field k v fs) = update (put k v d) fs

-- UTF-8 has no bytes for the code points from U+D800 to U+DFFF, which `json.loads` can give for an
-- escape of half a pair.
unfoldable pub has_surrogate : Text → Bool
has_surrogate [] = false
has_surrogate (c ∷ s) = (leb 55296 c && leb c 57343) || has_surrogate s

-- Whether `JSONResponse`, which prints texts as they are, can encode a value.
unfoldable mutual
  unfolding has_surrogate

  pub is_encodable : Json → Bool
  is_encodable null = true
  is_encodable (boolean b) = true
  is_encodable (number n) = true
  is_encodable (decimal n k) = true
  is_encodable (str s) = not (has_surrogate s)
  is_encodable (array is) = all_encodable is
  is_encodable (object fs) = fields_encodable fs

  pub all_encodable : Items → Bool
  all_encodable nil = true
  all_encodable (item v is) = is_encodable v && all_encodable is

  pub fields_encodable : Fields → Bool
  fields_encodable end = true
  fields_encodable (field k v fs) = not (has_surrogate k) && is_encodable v && fields_encodable fs

pub get-put_self : (k : Text) (v : Json) (fs : Fields) → get k (put k v fs) ≡ some v
unfolding get put
get-put_self k v end = rw (text_eq_refl k)
get-put_self k v (field j u fs) = ground (arith, get-put_self k v fs)
