-- ===== src/Billing/Defs.antt =====
-- task1_mcp_server/store.py.
use mcp_llm_gateway_suite.Base.{
  ℕ, suc, ◌+◌, ◌-◌, ◌/◌, ◌%◌, Bool, true, false, not, Option, none, some, List, [], ◌∷◌, ◌++◌, ltb,
  if◌then◌else◌,
}
use mathlib.Core.List.{reverse}
use mcp_llm_gateway_suite.Base.Text.{Text, codes, text_eq, digits_reversed}

pub record Customer : Type 0 where
  pub customer_id : Text
  pub name : Text
  pub email : Text
  pub plan : Text
  pub status : Text
  pub lifetime_value : ℕ
  pub refundable_balance : ℕ

pub record Refund : Type 0 where
  pub refund_id : Text
  pub customer_id : Text
  pub amount : ℕ
  pub reason : Text
  pub status : Text
  pub created_at : Text
  pub idempotency_key : Option Text
  pub request_fingerprint : Text

pub record Store : Type 0 where
  pub customers : List (Text × Customer)
  pub refunds : List Refund
  pub by_idempotency_key : List (Text × Refund)

-- `CustomerNotFoundError`, `RefundNotPermittedError` with its two causes, and
-- `IdempotencyKeyConflict`, with what their messages are made of.
pub data StoreError : Type 0 where
  customer_not_found : Text → StoreError
  status_not_active : Text → Text → StoreError
  exceeds_balance : ℕ → ℕ → Text → StoreError
  key_conflict : Text → StoreError

-- `d.get(k)`
unfoldable pub lookup {ℓ} : {A : Type ℓ} → Text → List (Text × A) → Option A
lookup k [] = none
lookup k ((j, a) ∷ d) = let rest = lookup k d in if text_eq j k then some a else rest

-- `d[k] = a`
unfoldable pub assign {ℓ} : {A : Type ℓ} → Text → A → List (Text × A) → List (Text × A)
assign k a [] = (k, a) ∷ []
assign k a ((j, b) ∷ d) =
    let rest = assign k a d in if text_eq j k then (j, a) ∷ d else (j, b) ∷ rest

unfoldable pub get_customer : Store → Text → Option Customer
unfolding lookup
get_customer s id = lookup id s.customers

-- `f"{amount:.2f}"` of an amount in cents; a number has fewer digits than its successor counts.
unfoldable pub format_amount : ℕ → Text
unfolding digits_reversed
format_amount cents =
    reverse (digits_reversed (suc (cents / 100)) (cents / 100))
    ++ (codes "." ++ ((48 + cents / 10 % 10) ∷ (48 + cents % 10) ∷ []))

-- `_fingerprint`, whose digest is an argument.
unfoldable pub fingerprint : (Text → Text) → Text → ℕ → Text → Text
unfolding format_amount
fingerprint sha256 customer_id amount reason =
    sha256 (customer_id ++ (codes "|" ++ (format_amount amount ++ (codes "|" ++ reason))))

-- What `create_refund` returns or raises.
pub data RefundEnd : Type 0 where
  returned : Refund → Bool → RefundEnd
  raised : StoreError → RefundEnd

-- A call with its arguments, and what `uuid4` and the clock give to it.
pub record RefundCall : Type 0 where
  pub customer_id : Text
  pub amount : ℕ
  pub reason : Text
  pub idempotency_key : Option Text
  pub new_id : Text
  pub now : Text

-- A key that is not empty.
unfoldable pub key_of : Option Text → Option Text
key_of none = none
key_of (some []) = none
key_of (some (c ∷ s)) = some (c ∷ s)

unfoldable pub refund_of : (Text → Text) → RefundCall → Refund
unfolding fingerprint
refund_of sha256 call = record {
  refund_id = codes "RF-" ++ call.new_id;
  customer_id = call.customer_id;
  amount = call.amount;
  reason = call.reason;
  status = codes "pending_settlement";
  created_at = call.now;
  idempotency_key = call.idempotency_key;
  request_fingerprint = fingerprint sha256 call.customer_id call.amount call.reason;
}

-- The key's entry in the table, where the call has a key.
unfoldable pub remember : Option Text → Refund → List (Text × Refund) → List (Text × Refund)
unfolding assign
remember none refund keys = keys
remember (some k) refund keys = assign k refund keys

-- The end of `create_refund`, for a customer who may have the refund.
unfoldable pub book : (Text → Text) → RefundCall → Customer → Store → RefundEnd × Store
unfolding refund_of assign remember key_of
book sha256 call customer s =
    let refund = refund_of sha256 call in
    (
      returned refund false,
      record {
        customers =
            assign call.customer_id
              (record customer { refundable_balance = customer.refundable_balance - refund.amount })
              s.customers;
        refunds = s.refunds ++ (refund ∷ []);
        by_idempotency_key = remember (key_of call.idempotency_key) refund s.by_idempotency_key;
      },
    )

-- `create_refund` without an earlier refund under its key.
unfoldable pub create_new : (Text → Text) → RefundCall → Store → RefundEnd × Store
unfolding get_customer text_eq
create_new sha256 call s = elim (get_customer s call.customer_id) [
  | none ↦ (raised (customer_not_found call.customer_id), s)
  | some customer ↦
      if not (text_eq customer.status (codes "active"))
      then (raised (status_not_active call.customer_id customer.status), s)
      else if ltb customer.refundable_balance call.amount
      then (raised (exceeds_balance call.amount customer.refundable_balance call.customer_id), s)
      else book sha256 call customer s
]

-- `create_refund` where the table has a refund under its key.
unfoldable pub replay : (Text → Text) → RefundCall → Text → Refund → Store → RefundEnd × Store
unfolding fingerprint text_eq
replay sha256 call key existing s =
    if not (
      text_eq existing.request_fingerprint
        (fingerprint sha256 call.customer_id call.amount call.reason))
    then (raised (key_conflict key), s)
    else (returned existing true, s)

unfoldable pub create_keyed : (Text → Text) → RefundCall → Option Text → Store → RefundEnd × Store
unfolding lookup
create_keyed sha256 call none s = create_new sha256 call s
create_keyed sha256 call (some key) s = elim (lookup key s.by_idempotency_key) [
  | none ↦ create_new sha256 call s
  | some existing ↦ replay sha256 call key existing s
]

unfoldable pub create_refund : (Text → Text) → RefundCall → Store → RefundEnd × Store
unfolding create_keyed key_of
create_refund sha256 call s = create_keyed sha256 call (key_of call.idempotency_key) s

abbrev customer : Text → Text → Text → Text → Text → ℕ → ℕ → Text × Customer
customer id name email plan status lifetime balance = (
  id,
  record {
    customer_id = id;
    name = name;
    email = email;
    plan = plan;
    status = status;
    lifetime_value = lifetime;
    refundable_balance = balance;
  },
)

abbrev pub seeded_store : Store
seeded_store = record {
  customers =
      customer (codes "CUST-10042") (codes "Ada Lovelace") (codes "ada@example.com")
        (codes "enterprise") (codes "active") 4825000 120000
      ∷ customer (codes "CUST-20099") (codes "Grace Hopper") (codes "grace@example.com")
          (codes "pro") (codes "active") 731050 15000
      ∷ customer (codes "CUST-30007") (codes "Alan Turing") (codes "alan@example.com")
          (codes "starter") (codes "suspended") 21000 0
      ∷ [];
  refunds = [];
  by_idempotency_key = [];
}
