-- ===== src/Tools/Schemas.antt =====
-- task1_mcp_server/schemas.py, as a decision on the arguments of a call: the types, bounds and
-- lengths that the models declare, with extra fields forbidden, and then their validators.
use mcp_llm_gateway_suite.Base.{
  ℕ, zero, suc, ◌*◌, ◌/◌, ◌%◌, Bool, true, false, ◌&&◌, Option, none, some, List, [], ◌∷◌, leb, ltb,
  ◌==◌, if◌then◌else◌, length, take, drop, all_of,
}
use mcp_llm_gateway_suite.Base.Int.{pos}
use mcp_llm_gateway_suite.Base.Text.{Text, codes, text_eq, strip}
use mcp_llm_gateway_suite.Json.{Json, null, number, decimal, str, Fields, end, field, get}

-- `^CUST-[0-9]{5}$` of the regular expressions of Pydantic, whose `$` is the end of the text.
unfoldable pub is_customer_id : Text → Bool
unfolding text_eq
is_customer_id s =
    text_eq (take 5 s) (codes "CUST-")
    && length s == 10
    && all_of (λ c. leb 48 c && leb c 57) (drop 5 s)

-- In cents.
abbrev pub max_refund_amount : ℕ
max_refund_amount = 1000000

abbrev pub min_reason_length : ℕ
min_reason_length = 10

abbrev pub max_reason_length : ℕ
max_reason_length = 500

unfoldable pub power_of_ten : ℕ → ℕ
power_of_ten zero = 1
power_of_ten (suc n) = 10 * power_of_ten n

-- A number that is positive, within the maximum and has at most two decimal places, in cents; a
-- float in the strict mode is no text and no `bool`.
unfoldable pub amount_of : Json → Option ℕ
unfolding power_of_ten
amount_of (number (pos n)) =
    if ltb 0 n && leb (n * 100) max_refund_amount then some (n * 100) else none
amount_of (decimal (pos n) k) =
    let unit = power_of_ten k in
    let cents = n * 100 / unit in
    if ltb 0 n && leb (n * 100) (max_refund_amount * unit) && n * 100 % unit == 0
    then some cents
    else none
amount_of _ = none

-- A string with its bounds of length.
unfoldable pub bounded_text : ℕ → ℕ → Json → Option Text
bounded_text low high (str s) = if leb low (length s) && leb (length s) high then some s else none
bounded_text low high _ = none

unfoldable pub customer_id_of : Json → Option Text
unfolding is_customer_id
customer_id_of (str s) = if is_customer_id s then some s else none
customer_id_of _ = none

-- The reason without white space around it, `_reason_is_substantive`.
unfoldable pub reason_of : Json → Option Text
unfolding bounded_text strip
reason_of v = elim (bounded_text min_reason_length max_reason_length v) [
  | none ↦ none
  | some s ↦ if ltb (length (strip s)) min_reason_length then none else some (strip s)
]

-- The optional key: a missing one, and `null`, is `None`.
unfoldable pub key_field : Option Json → Option (Option Text)
unfolding bounded_text
key_field none = some none
key_field (some null) = some none
key_field (some v) = elim (bounded_text 8 64 v) [ none ↦ none | some s ↦ some (some s) ]

-- `extra="forbid"`
unfoldable pub only_keys : List Text → Fields → Bool
unfolding text_eq
only_keys keys end = true
only_keys keys (field k v fs) = is_key k keys && only_keys keys fs
  where
    is_key : Text → List Text → Bool
    is_key k [] = false
    is_key k (j ∷ js) = let rest = is_key k js in if text_eq k j then true else rest

pub record TriggerRefundInput : Type 0 where
  pub customer_id : Text
  pub amount : ℕ
  pub reason : Text
  pub idempotency_key : Option Text

-- `GetCustomerRecordInput.model_validate`, `none` for a `ValidationError`.
unfoldable pub customer_record_input : Fields → Option Text
unfolding only_keys get customer_id_of
customer_record_input fs =
    if only_keys (codes "customer_id" ∷ []) fs
    then elim (get (codes "customer_id") fs) [ none ↦ none | some v ↦ customer_id_of v ]
    else none

unfoldable pub combined :
    Option Text → Option ℕ → Option Text → Option (Option Text) → Option TriggerRefundInput
combined (some id) (some amount) (some reason) (some key) =
    some (record { customer_id = id; amount = amount; reason = reason; idempotency_key = key })
combined (some id) (some amount) (some reason) none = none
combined (some id) (some amount) none key = none
combined (some id) none reason key = none
combined none amount reason key = none

-- A required field.
unfoldable pub required {ℓ} : {A : Type ℓ} → (Json → Option A) → Option Json → Option A
required read none = none
required read (some v) = read v

-- `TriggerRefundInput.model_validate`
unfoldable pub refund_input : Fields → Option TriggerRefundInput
unfolding only_keys get customer_id_of amount_of reason_of key_field combined required
refund_input fs =
    if only_keys
      (codes "customer_id" ∷ codes "amount" ∷ codes "reason" ∷ codes "idempotency_key" ∷ []) fs
    then combined (required customer_id_of (get (codes "customer_id") fs))
        (required amount_of (get (codes "amount") fs))
        (required reason_of (get (codes "reason") fs))
        (key_field (get (codes "idempotency_key") fs))
    else none
