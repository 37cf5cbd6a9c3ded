-- ===== src/Operation/Redacted.antt =====
-- What the payloads that operations/service.py stores may hold.
use incidentlens.Common.{
  ℕ, String, ◌≡◌, refl, ◌⊎◌, inl, inr, Bool, true, false, Bool-cases, Option, some, ◌>>=◌,
}
use incidentlens.Operation.Json.{
  Json, null, boolean, number, text, array, object, Items, nil, cons, Fields, end, field, Payload,
}
use incidentlens.Operation.Types.{Operation, Db, operation_key}
use incidentlens.Operation.Service.{NewOperation, new_row, operation_status_changed}
use incidentlens.Operation.Store.{Store, create}
use incidentlens.Common.Keyed.{string_key, find}
use incidentlens.Operation.Payload.{
  redact_json_value, redact_items, redact_fields, redact_text, is_secret_hint, is_password_hint,
  max_payload_value_length,
}

module _ (redact : ℕ → String → String) where
  -- What may stand for a text: under a secret key one of the two placeholders, else what the log
  -- redactor has returned.
  abbrev pub IsSafeText : Bool → String → Type 0
  IsSafeText true s = (s ≡ "[REDACTED_PASSWORD]") ⊎ (s ≡ "[REDACTED_TOKEN]")
  IsSafeText false s = (original : String) × (s ≡ redact max_payload_value_length original)

  unfoldable mutual
    pub IsRedacted : Option String → Json → Type 0
    IsRedacted hint null = Unit
    IsRedacted hint (boolean b) = Unit
    IsRedacted hint (number n) = Unit
    IsRedacted hint (text s) = IsSafeText (is_secret_hint hint) s
    IsRedacted hint (array items) = AreRedacted hint items
    IsRedacted hint (object fields) = HasRedacted fields

    pub AreRedacted : Option String → Items → Type 0
    AreRedacted hint nil = Unit
    AreRedacted hint (cons v items) = IsRedacted hint v × AreRedacted hint items

    pub HasRedacted : Fields → Type 0
    HasRedacted end = Unit
    HasRedacted (field key v fields) = IsRedacted (some key) v × HasRedacted fields

  redact_text-IsSafeText :
      (hint : Option String) (s : String)
      → IsSafeText (is_secret_hint hint) (redact_text redact hint s)
  redact_text-IsSafeText hint s = elim (Bool-cases (is_secret_hint hint)) [
    | inl k ↦ rw k (elim (Bool-cases (is_password_hint hint)) [
      | inl p ↦ rw p (inl refl)
      | inr p ↦ rw p (inr refl)
    ])
    | inr k ↦ rw k (s, refl)
  ]

  mutual
    unfolding redact_json_value IsRedacted

    pub redact_json_value-IsRedacted :
        (hint : Option String) (v : Json) → IsRedacted hint (redact_json_value redact hint v)
    redact_json_value-IsRedacted hint null = tt
    redact_json_value-IsRedacted hint (boolean b) = tt
    redact_json_value-IsRedacted hint (number n) = tt
    redact_json_value-IsRedacted hint (text s) = redact_text-IsSafeText hint s
    redact_json_value-IsRedacted hint (array items) = redact_items-AreRedacted hint items
    redact_json_value-IsRedacted hint (object fields) = redact_fields-HasRedacted fields

    redact_items-AreRedacted :
        (hint : Option String) (items : Items) → AreRedacted hint (redact_items redact hint items)
    redact_items-AreRedacted hint nil = tt
    redact_items-AreRedacted hint (cons v items) =
        (redact_json_value-IsRedacted hint v, redact_items-AreRedacted hint items)

    redact_fields-HasRedacted : (fields : Fields) → HasRedacted (redact_fields redact fields)
    redact_fields-HasRedacted end = tt
    redact_fields-HasRedacted (field key v fields) =
        (redact_json_value-IsRedacted (some key) v, redact_fields-HasRedacted fields)

  -- What follows the redaction in `create_operation`.
  abbrev insert_new : String → NewOperation → ℕ → Option Json → Store Operation
  insert_new id new now payload =
      create (new_row redact id new now payload) >>= λ op. operation_status_changed redact op

  -- The row of `id` is there, and holds the payload that was returned.
  abbrev pub Stores : String → Db → Json → Type 0
  Stores id db v =
      (row : Operation) × (find operation_key id db.operations ≡ some row)
      × (row.request_payload ≡ some v)
