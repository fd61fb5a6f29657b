-- ===== src/Tools/Valid.antt =====
-- The arguments that task1_mcp_server/schemas.py lets through.
use mcp_llm_gateway_suite.Base.{
  ℕ, ◌+◌, ◌*◌, ◌/◌, ◌%◌, ◌≤◌, ◌<◌, ◌≡◌, ap, subst, inl, inr, true, Option, none, some, length,
  arith, Option-cases, Bool-cases, leb, ltb, ◌==◌, zero, suc, ◌&&◌,
}
use native.Mathlib.Nat.{div-lt_iff_lt-mul, div-add-mod}
use mcp_llm_gateway_suite.Base.Int.{pos, negsuc}
use mcp_llm_gateway_suite.Base.Text.{Text, codes, strip}
use mcp_llm_gateway_suite.Json.{
  Json, null, boolean, number, decimal, str, array, object, Fields, get,
}
use mcp_llm_gateway_suite.Tools.Schemas.{
  TriggerRefundInput, is_customer_id, max_refund_amount, min_reason_length, max_reason_length,
  power_of_ten, amount_of, bounded_text, customer_id_of, reason_of, key_field, combined, required,
  refund_input,
}

-- What is sure of valid arguments.
pub record IsValid (args : TriggerRefundInput) : Type 0 where
  pub identified : is_customer_id args.customer_id ≡ true
  pub positive : 0 < args.amount
  pub limited : args.amount ≤ max_refund_amount
  pub substantive : min_reason_length ≤ length args.reason

power_of_ten_pos : (k : ℕ) → 0 < power_of_ten k
unfolding power_of_ten
power_of_ten_pos zero = omega arith
power_of_ten_pos (suc k) = omega (arith, power_of_ten_pos k)

-- A multiple of a unit, in units.
quotient_bounds :
    (m unit : ℕ)
    → 0 < unit
    → 0 < m
    → m % unit ≡ 0
    → m ≤ max_refund_amount * unit
    → (0 < m / unit) × (m / unit ≤ max_refund_amount)
quotient_bounds m unit u p whole most =
    let split : unit * (m / unit) + m % unit ≡ m = div-add-mod m unit in
    let below : m / unit < suc max_refund_amount =
      (div-lt_iff_lt-mul {k = unit} {x = m} {y = suc max_refund_amount} u).1 (omega arith) in
    elim (Bool-cases (m / unit == 0)) [
      | inl none_whole ↦
          let zero_units : m / unit ≡ 0 = ground arith in
          let nothing = subst (λ q. unit * q + m % unit ≡ m) zero_units split in
          absurd (omega (arith, nothing, whole, p))
      | inr some_whole ↦ (ground arith, omega (arith, below))
    ]

amount_of_bounds :
    (v : Json) (amount : ℕ)
    → amount_of v ≡ some amount
    → (0 < amount) × (amount ≤ max_refund_amount)
unfolding amount_of
amount_of_bounds null amount h = absurd cc
amount_of_bounds (boolean b) amount h = absurd cc
amount_of_bounds (number (pos n)) amount h = (ground arith, ground arith)
amount_of_bounds (number (negsuc n)) amount h = absurd cc
amount_of_bounds (decimal (pos n) k) amount h =
    let fine = power_of_ten_pos k in
    elim (Bool-cases (
      ltb 0 n
      && leb (n * 100) (max_refund_amount * power_of_ten k)
      && n * 100 % power_of_ten k == 0)) [
        | inl admitted ↦
            let unit = power_of_ten k in
            let bounds =
              quotient_bounds (n * 100) unit fine (ground arith) (ground arith) (ground arith) in
            let same : n * 100 / unit ≡ amount = ground arith in
            subst (λ a. (0 < a) × (a ≤ max_refund_amount)) same bounds
        | inr refused ↦ absurd (ground arith)
      ]
amount_of_bounds (decimal (negsuc n) k) amount h = absurd cc
amount_of_bounds (str s) amount h = absurd cc
amount_of_bounds (array is) amount h = absurd cc
amount_of_bounds (object fs) amount h = absurd cc

customer_id_of-id : (v : Json) (id : Text) → customer_id_of v ≡ some id → is_customer_id id ≡ true
unfolding customer_id_of
customer_id_of-id null id h = absurd cc
customer_id_of-id (boolean b) id h = absurd cc
customer_id_of-id (number n) id h = absurd cc
customer_id_of-id (decimal n k) id h = absurd cc
customer_id_of-id (array is) id h = absurd cc
customer_id_of-id (object fs) id h = absurd cc
customer_id_of-id (str s) id h = elim (Bool-cases (is_customer_id s)) [
  | inl fine ↦ let same : s ≡ id = ground arith in subst (λ t. is_customer_id t ≡ true) same fine
  | inr bad ↦ absurd (ground arith)
]

reason_of-length :
    (v : Json) (reason : Text) → reason_of v ≡ some reason → min_reason_length ≤ length reason
unfolding reason_of
reason_of-length v reason h =
    elim (Option-cases (bounded_text min_reason_length max_reason_length v)) [
      | inl bad ↦ absurd (ground arith)
      | inr (s, fits) ↦ elim (Bool-cases (ltb (length (strip s)) min_reason_length)) [
        | inl short ↦ absurd (ground arith)
        | inr long ↦
            let same : strip s ≡ reason = ground arith in
            let size : min_reason_length ≤ length (strip s) = ground arith in
            subst (λ t. min_reason_length ≤ length t) same size
      ]
    ]

required-some :
    {A : Type 0} (read : Json → Option A) (v : Option Json) (a : A)
    → required read v ≡ some a
    → (w : Json) × (read w ≡ some a)
unfolding required
required-some read none a h = absurd cc
required-some read (some w) a h = (w, h)

some_injective : (a b : TriggerRefundInput) → some a ≡ some b → a ≡ b
some_injective a b e = cc

combined-some :
    (id : Option Text) (amount : Option ℕ) (reason : Option Text) (key : Option (Option Text))
    (args : TriggerRefundInput)
    → combined id amount reason key ≡ some args
    → (id ≡ some args.customer_id) × (amount ≡ some args.amount) × (reason ≡ some args.reason)
unfolding combined
combined-some (some id) (some amount) (some reason) (some key) args h =
    let made : TriggerRefundInput = record {
      customer_id = id;
      amount = amount;
      reason = reason;
      idempotency_key = key;
    } in
    let e : made ≡ args = some_injective made args h in
    (
      ap (λ (a : TriggerRefundInput). some a.customer_id) e,
      ap (λ (a : TriggerRefundInput). some a.amount) e,
      ap (λ (a : TriggerRefundInput). some a.reason) e,
    )
combined-some (some id) (some amount) (some reason) none args h = absurd cc
combined-some (some id) (some amount) none key args h = absurd cc
combined-some (some id) none reason key args h = absurd cc
combined-some none amount reason key args h = absurd cc

refund_input-combined :
    (fs : Fields) (args : TriggerRefundInput)
    → refund_input fs ≡ some args
    → combined
        (required customer_id_of (get (codes "customer_id") fs))
        (required amount_of (get (codes "amount") fs))
        (required reason_of (get (codes "reason") fs))
        (key_field (get (codes "idempotency_key") fs))
      ≡ some args
unfolding refund_input
refund_input-combined fs args h = ground arith

-- Arguments that the schema admits name a customer in the required form, ask for more than nothing
-- and for at most 10,000.00 dollars, and give a reason that has at least ten characters without the
-- white space around it.
pub refund_input-IsValid :
    (fs : Fields) (args : TriggerRefundInput) → refund_input fs ≡ some args → IsValid args
refund_input-IsValid fs args h =
    let (has_id, has_amount, has_reason) =
      combined-some (required customer_id_of (get (codes "customer_id") fs))
        (required amount_of (get (codes "amount") fs))
        (required reason_of (get (codes "reason") fs))
        (key_field (get (codes "idempotency_key") fs)) args (refund_input-combined fs args h) in
    let (id, read_id) =
      required-some customer_id_of (get (codes "customer_id") fs) args.customer_id has_id in
    let (amount, read_amount) =
      required-some amount_of (get (codes "amount") fs) args.amount has_amount in
    let (reason, read_reason) =
      required-some reason_of (get (codes "reason") fs) args.reason has_reason in
    let bounds = amount_of_bounds amount args.amount read_amount in
    record {
      identified = customer_id_of-id id args.customer_id read_id;
      positive = bounds.0;
      limited = bounds.1;
      substantive = reason_of-length reason args.reason read_reason;
    }
