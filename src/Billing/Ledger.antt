-- ===== src/Billing/Ledger.antt =====
-- The money of the billing store of task1_mcp_server/store.py.
use mcp_llm_gateway_suite.Base.{
  ℕ, ◌+◌, ◌-◌, ◌≤◌, ◌≡◌, refl, sym, ap, ◌∙◌, subst, ◌⊎◌, inl, inr, false, Option, none, some, List,
  [], ◌∷◌, ◌++◌, ltb, if◌then◌else◌, arith, Bool-cases, Option-cases,
}
use mcp_llm_gateway_suite.Base.Text.{Text, codes, text_eq, text_eq_iff, text_eq_refl}
use mcp_llm_gateway_suite.Billing.Defs.{
  Customer, Refund, Store, StoreError, raised, customer_not_found, status_not_active,
  exceeds_balance, RefundCall, lookup, assign, get_customer, key_of, refund_of, book, create_new,
  replay, create_keyed, create_refund,
}

-- The store after a list of calls.
unfoldable pub run : (Text → Text) → List RefundCall → Store → Store
run sha256 [] s = s
run sha256 (call ∷ calls) s = run sha256 calls (create_refund sha256 call s).1

module _ {A : Type 0} where
  pub lookup-assign_self :
      (k : Text) (a : A) (d : List (Text × A)) → lookup k (assign k a d) ≡ some a
  unfolding lookup assign
  lookup-assign_self k a [] = ground (arith, text_eq_refl k)
  lookup-assign_self k a ((j, b) ∷ d) = elim (Bool-cases (text_eq j k)) [
    | inl same ↦ ground arith
    | inr other ↦ ground (arith, lookup-assign_self k a d)
  ]

  pub lookup-assign_other :
      (k j : Text) (a : A) (d : List (Text × A))
      → text_eq j k ≡ false
      → lookup k (assign j a d) ≡ lookup k d
  unfolding lookup assign
  lookup-assign_other k j a [] h = ground arith
  lookup-assign_other k j a ((i, b) ∷ d) h = elim (Bool-cases (text_eq i j)) [
    | inl same ↦
        let e = (text_eq_iff i j).0 same in
        let apart : text_eq i k ≡ false = subst (λ t. text_eq t k ≡ false) (sym e) h in ground arith
    | inr other ↦ ground (arith, lookup-assign_other k j a d h)
  ]

-- A call that makes a refund.
pub record IsBooked (sha256 : Text → Text) (call : RefundCall) (s : Store) : Type 0 where
  pub customer : Customer
  pub found : lookup call.customer_id s.customers ≡ some customer
  pub active : customer.status ≡ codes "active"
  pub enough : call.amount ≤ customer.refundable_balance
  pub unused :
      (k : Text) → key_of call.idempotency_key ≡ some k → lookup k s.by_idempotency_key ≡ none
  pub booked : create_refund sha256 call s ≡ book sha256 call customer s

pub create_new-cases :
    (sha256 : Text → Text) (call : RefundCall) (s : Store)
    → ((e : StoreError) × (create_new sha256 call s ≡ (raised e, s)))
      ⊎ ((customer : Customer) × (lookup call.customer_id s.customers ≡ some customer)
          × (customer.status ≡ codes "active")
          × (call.amount ≤ customer.refundable_balance)
          × (create_new sha256 call s ≡ book sha256 call customer s))
unfolding create_new
create_new-cases sha256 call s = elim (Option-cases (get_customer s call.customer_id)) [
  | inl missing ↦ inl (customer_not_found call.customer_id, ground arith)
  | inr (customer, found) ↦ elim (Bool-cases (text_eq customer.status (codes "active"))) [
    | inr inactive ↦ inl (status_not_active call.customer_id customer.status, ground arith)
    | inl active ↦ elim (Bool-cases (ltb customer.refundable_balance call.amount)) [
      | inl poor ↦
          inl
            (exceeds_balance call.amount customer.refundable_balance call.customer_id, ground arith)
      | inr enough ↦ inr (
        customer,
        found,
        (text_eq_iff customer.status (codes "active")).0 active,
        ground arith,
        ground arith,
      )
    ]
  ]
]

new-IsBooked :
    (sha256 : Text → Text) (call : RefundCall) (s : Store)
    → create_refund sha256 call s ≡ create_new sha256 call s
    → ((k : Text) → key_of call.idempotency_key ≡ some k → lookup k s.by_idempotency_key ≡ none)
    → ((create_refund sha256 call s).1 ≡ s) ⊎ IsBooked sha256 call s
new-IsBooked sha256 call s same unused = elim (create_new-cases sha256 call s) [
  | inl (e, fails) ↦ inl (ap (λ r. r.1) (same ∙ fails))
  | inr (customer, found, active, enough, books) ↦ inr (record {
    customer = customer;
    found = found;
    active = active;
    enough = enough;
    unused = unused;
    booked = same ∙ books;
  })
]

replay_keeps :
    (sha256 : Text → Text) (call : RefundCall) (key : Text) (existing : Refund) (s : Store)
    → (replay sha256 call key existing s).1 ≡ s
unfolding replay
replay_keeps sha256 call key existing s = ground arith

pub create_refund-cases :
    (sha256 : Text → Text) (call : RefundCall) (s : Store)
    → ((create_refund sha256 call s).1 ≡ s) ⊎ IsBooked sha256 call s
unfolding create_refund create_keyed
create_refund-cases sha256 call s = elim (Option-cases (key_of call.idempotency_key)) [
  | inl keyless ↦
      new-IsBooked sha256 call s (ap (λ k. create_keyed sha256 call k s) keyless) (λ k e. absurd cc)
  | inr (key, keyed) ↦ elim (Option-cases (lookup key s.by_idempotency_key)) [
    | inl fresh ↦ new-IsBooked sha256 call s (ground arith) (λ k e. cc)
    | inr (existing, used) ↦
        let keeps = replay_keeps sha256 call key existing s in inl (ground arith)
  ]
]

-- The balance of a customer, and the sum of the customer's refunds.
abbrev pub balance_of : Option Customer → ℕ
balance_of none = 0
balance_of (some c) = c.refundable_balance

abbrev pub balance : Text → Store → ℕ
balance id s = balance_of (lookup id s.customers)

abbrev pub refunded : Text → List Refund → ℕ
refunded id [] = 0
refunded id (r ∷ rs) =
    let rest = refunded id rs in if text_eq r.customer_id id then r.amount + rest else rest

refunded-append :
    (id : Text) (rs ts : List Refund) → refunded id (rs ++ ts) ≡ refunded id rs + refunded id ts
refunded-append id [] ts = omega arith
refunded-append id (r ∷ rs) ts = ground (arith, refunded-append id rs ts)

booked-conserves :
    (sha256 : Text → Text) (call : RefundCall) (s : Store) (id : Text)
    → IsBooked sha256 call s
    → balance id (create_refund sha256 call s).1
        + refunded id (create_refund sha256 call s).1.refunds
      ≡ balance id s + refunded id s.refunds
unfolding book refund_of
booked-conserves sha256 call s id b =
    let customer : Customer = record (b.customer) {
      refundable_balance = b.customer.refundable_balance - call.amount;
    } in
    let refund = refund_of sha256 call in
    let sum = refunded-append id s.refunds (refund ∷ []) in
    elim (Bool-cases (text_eq call.customer_id id)) [
      | inl hers ↦
          let same = (text_eq_iff call.customer_id id).0 hers in
          let now =
            subst (λ j. lookup id (assign j customer s.customers) ≡ some customer) (sym same)
              (lookup-assign_self id customer s.customers) in
          let before = subst (λ j. lookup j s.customers ≡ some b.customer) same b.found in
          let one : refunded id (refund ∷ []) ≡ call.amount = ground arith in
          rw (b.booked, now, before, sum, one) (omega (arith, b.enough))
      | inr another ↦
          let now = lookup-assign_other id call.customer_id customer s.customers another in
          let nothing : refunded id (refund ∷ []) ≡ 0 = ground arith in
          rw (b.booked, now, sum, nothing) (omega arith)
    ]

conserves_one :
    (sha256 : Text → Text) (call : RefundCall) (s : Store) (id : Text)
    → balance id (create_refund sha256 call s).1
        + refunded id (create_refund sha256 call s).1.refunds
      ≡ balance id s + refunded id s.refunds
conserves_one sha256 call s id = elim (create_refund-cases sha256 call s) [
  | inl unchanged ↦ rw unchanged refl
  | inr b ↦ booked-conserves sha256 call s id b
]

-- Over every list of calls, whatever they ask for, a customer's balance and the sum of the
-- customer's refunds add up to the same: what is refunded is taken from the balance, once.
pub conserves :
    (sha256 : Text → Text) (calls : List RefundCall) (s : Store) (id : Text)
    → balance id (run sha256 calls s) + refunded id (run sha256 calls s).refunds
      ≡ balance id s + refunded id s.refunds
unfolding run
conserves sha256 [] s id = refl
conserves sha256 (call ∷ calls) s id =
    conserves sha256 calls (create_refund sha256 call s).1 id ∙ conserves_one sha256 call s id
