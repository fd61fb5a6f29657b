-- ===== src/Gateway/Sound.antt =====
-- What task2_mcp_gateway/mcp_gateway.py sends for a caller is what the caller asked for and may have.
use mcp_llm_gateway_suite.Base.{
  ℕ, ◌+◌, ◌≡◌, refl, sym, inl, inr, true, List, [], ◌∷◌, ◌++◌, All, Bool-cases,
}
use mathlib.Core.List.{Memᴰ}
use mathlib.Core.List.Memᴰ.{head, tail, not-nil}
use mcp_llm_gateway_suite.Base.Text.{Text}
use mcp_llm_gateway_suite.Json.{
  Json, null, boolean, number, decimal, str, array, object, Items, Fields,
}
use mcp_llm_gateway_suite.Gateway.Auth.{Principal}
use mcp_llm_gateway_suite.Gateway.Rpc.{item_list, looks_like_rpc_request}
use mcp_llm_gateway_suite.Gateway.Authorize.{App, Headers, downstream_headers}
use mcp_llm_gateway_suite.Gateway.Proxy.{Upstream, handle_single}
use mcp_llm_gateway_suite.Gateway.Batch.{handle_entry, handle_entries, handle_batch, handle_payload}
use mcp_llm_gateway_suite.Gateway.Guard.{IsPermitted, authorize-IsPermitted}
use mcp_llm_gateway_suite.Gateway.Sends.{sent_messages, single_sent, entry_sent, entries_sent}

-- What makes it right to send a message: it is one of the messages of the request, its headers are
-- those of the caller who was authenticated, and that caller is permitted to send it.
pub record IsSound (app : App) (p : Principal) (request_id : Text) (messages : List Json)
    (m : Fields × Headers) : Type 0 where
  pub requested : Memᴰ (object m.0) messages
  pub identity : m.1 ≡ downstream_headers app p request_id
  pub permitted : IsPermitted app p m.0

-- The messages of a body: the entries of an array, or the body itself.
abbrev pub messages_of : Json → List Json
messages_of null = null ∷ []
messages_of (boolean b) = boolean b ∷ []
messages_of (number n) = number n ∷ []
messages_of (decimal n k) = decimal n k ∷ []
messages_of (str s) = str s ∷ []
messages_of (array entries) = item_list entries
messages_of (object fs) = object fs ∷ []

All-append :
    (P : Fields × Headers → Type 0) (xs ys : List (Fields × Headers))
    → All P xs
    → All P ys
    → All P (xs ++ ys)
All-append P [] ys h k = k
All-append P (x ∷ xs) ys (h, hs) k = (h, All-append P xs ys hs k)

pub All-mono :
    (P Q : Fields × Headers → Type 0)
    → ((m : Fields × Headers) → P m → Q m)
    → (xs : List (Fields × Headers)) → All P xs
    → All Q xs
All-mono P Q f [] h = h
All-mono P Q f (x ∷ xs) (h, hs) = (f x h, All-mono P Q f xs hs)

Memᴰ_of_first : {v w : Json} {ws : List Json} → Memᴰ v (w ∷ []) → Memᴰ v (w ∷ ws)
Memᴰ_of_first (head e) = head e
Memᴰ_of_first (tail (m)) = absurd (not-nil m)

module _ (app : App) (up : Upstream) (p : Principal) (request_id : Text) where
  handle_single-IsSound :
      (payload : Fields)
      → All
          (IsSound app p request_id (object payload ∷ []))
          (sent_messages (handle_single app up p request_id payload).effects)
  handle_single-IsSound payload = elim (single_sent app up p request_id payload) [
    | inr nothing ↦ rw nothing tt
    | inl (allowed, one) ↦ rw one (
      record {
        requested = head refl;
        identity = refl;
        permitted = authorize-IsPermitted app p request_id payload allowed;
      },
      tt,
    )
  ]

  handle_entry-IsSound :
      (count : ℕ) (entry : Json)
      → All
          (IsSound app p request_id (entry ∷ []))
          (sent_messages (handle_entry app up p request_id count entry).effects)
  handle_entry-IsSound count entry = elim (entry_sent app up p request_id count entry) [
    | inr nothing ↦ rw nothing tt
    | inl (fs, is_request, allowed, one) ↦ rw one (
      record {
        requested = head (sym is_request);
        identity = refl;
        permitted = authorize-IsPermitted app p request_id fs allowed;
      },
      tt,
    )
  ]

  later :
      (entry : Json) (entries : List Json) (m : Fields × Headers)
      → IsSound app p request_id entries m
      → IsSound app p request_id (entry ∷ entries) m
  later entry entries m s = record {
    requested = tail s.requested;
    identity = s.identity;
    permitted = s.permitted;
  }

  first :
      (entry : Json) (entries : List Json) (m : Fields × Headers)
      → IsSound app p request_id (entry ∷ []) m
      → IsSound app p request_id (entry ∷ entries) m
  first entry entries m s = record {
    requested = Memᴰ_of_first s.requested;
    identity = s.identity;
    permitted = s.permitted;
  }

  handle_entries-IsSound :
      (count : ℕ) (entries : List Json)
      → All
          (IsSound app p request_id entries)
          (sent_messages (handle_entries app up p request_id count entries).1)
  unfolding handle_entries
  handle_entries-IsSound count [] = tt
  handle_entries-IsSound count (entry ∷ entries) =
      let e = handle_entry app up p request_id count entry in
      let now =
        All-mono (IsSound app p request_id (entry ∷ []))
          (IsSound app p request_id (entry ∷ entries)) (first entry entries)
          (sent_messages e.effects) (handle_entry-IsSound count entry) in
      let more =
        All-mono (IsSound app p request_id entries) (IsSound app p request_id (entry ∷ entries))
          (later entry entries)
          (sent_messages (handle_entries app up p request_id (count + e.calls) entries).1)
          (handle_entries-IsSound (count + e.calls) entries) in
      elim (entries_sent app up p request_id count entry entries) [
        | inl same ↦ rw same now
        | inr both ↦ rw both (
            All-append (IsSound app p request_id (entry ∷ entries)) (sent_messages e.effects)
              (sent_messages (handle_entries app up p request_id (count + e.calls) entries).1) now
              more)
      ]

  payload_batch :
      (entries : Items)
      → app.allow_batch ≡ true
      → sent_messages (handle_payload app up p request_id (array entries)).effects
        ≡ sent_messages (handle_entries app up p request_id 0 (item_list entries)).1
  unfolding handle_payload handle_batch
  payload_batch entries batches = cc

  pub handle_payload-IsSound :
      (payload : Json)
      → All
          (IsSound app p request_id (messages_of payload))
          (sent_messages (handle_payload app up p request_id payload).effects)
  unfolding handle_payload
  handle_payload-IsSound null = tt
  handle_payload-IsSound (boolean b) = tt
  handle_payload-IsSound (number n) = tt
  handle_payload-IsSound (decimal n k) = tt
  handle_payload-IsSound (str s) = tt
  handle_payload-IsSound (array entries) = elim (Bool-cases app.allow_batch) [
    | inr never ↦ rw never tt
    | inl batches ↦
        rw (payload_batch entries batches) (handle_entries-IsSound 0 (item_list entries))
  ]
  handle_payload-IsSound (object fs) = elim (Bool-cases (looks_like_rpc_request (object fs))) [
    | inr odd ↦ rw odd tt
    | inl fine ↦ rw fine (handle_single-IsSound fs)
  ]
