-- ===== src/Operation/Payload.antt =====
-- The redaction of request payloads in operations/service.py. The log redactor of
-- logs/redaction.py is a parameter: the number is the bound on the length of its result.

use incidentlens.Common.{
  ℕ, String, Bool, true, false, ◌&&◌, Option, none, some, List, [], ◌∷◌, ◌+◌, ◌*◌, leb, ◌==◌, any,
  if◌then◌else◌, map, codes,
}
use incidentlens.Operation.Json.{
  Json, Items, Fields, null, boolean, number, text, array, object, nil, cons, end, field,
}

-- `str.lower`, as far as ASCII texts can tell: beside A to Z, only the Kelvin sign lowers to an
-- ASCII letter.
abbrev pub lower_code : ℕ → ℕ
lower_code c = if leb b'A' c && leb c b'Z' then c + 32 else if c == 0x212a then b'k' else c

abbrev pub same_codes : List ℕ → List ℕ → Bool
same_codes [] [] = true
same_codes (a ∷ as') (b ∷ bs) = a == b && same_codes as' bs
same_codes _ _ = false

-- `key.lower() in keys`.
abbrev pub lower_in : String → List String → Bool
lower_in key = any (λ k. same_codes (map lower_code (codes key)) (codes k))

-- `_PASSWORD_FIELD_KEYS`.
abbrev pub password_field_keys : List String
password_field_keys = "password" ∷ "passwd" ∷ "pwd" ∷ "secret" ∷ []

-- `_SECRET_FIELD_KEYS`.
abbrev pub secret_field_keys : List String
secret_field_keys =
    "password" ∷ "passwd" ∷ "pwd" ∷ "secret" ∷ "token" ∷ "api_key" ∷ "apikey" ∷ "api-key"
    ∷ "access_key" ∷ "access-token" ∷ "auth_token" ∷ "authorization" ∷ "bearer" ∷ "client_secret"
    ∷ "secret_key" ∷ "private_key" ∷ "signature" ∷ "credential" ∷ "credentials" ∷ []

abbrev pub max_payload_value_length : ℕ
max_payload_value_length = 16 * 1024

abbrev pub is_secret_key : String → Bool
is_secret_key key = lower_in key secret_field_keys

abbrev pub is_password_key : String → Bool
is_password_key key = lower_in key password_field_keys

-- `key_hint is not None and key_hint.lower() in _SECRET_FIELD_KEYS`.
abbrev pub is_secret_hint : Option String → Bool
is_secret_hint none = false
is_secret_hint (some key) = is_secret_key key

abbrev pub is_password_hint : Option String → Bool
is_password_hint none = false
is_password_hint (some key) = is_password_key key

module _ (redact : ℕ → String → String) where
  -- The `str` case of `_redact_json_value`.
  abbrev pub redact_text : Option String → String → String
  redact_text hint s =
      if is_secret_hint hint
      then (if is_password_hint hint then "[REDACTED_PASSWORD]" else "[REDACTED_TOKEN]")
      else redact max_payload_value_length s

  -- `_redact_json_value`; the hint is the key that the value stands under.
  unfoldable mutual
    pub redact_json_value : Option String → Json → Json
    redact_json_value hint null = null
    redact_json_value hint (boolean b) = boolean b
    redact_json_value hint (number n) = number n
    redact_json_value hint (text s) = text (redact_text hint s)
    redact_json_value hint (array items) = array (redact_items hint items)
    redact_json_value hint (object fields) = object (redact_fields fields)

    pub redact_items : Option String → Items → Items
    redact_items hint nil = nil
    redact_items hint (cons v items) = cons (redact_json_value hint v) (redact_items hint items)

    pub redact_fields : Fields → Fields
    redact_fields end = end
    redact_fields (field key v fields) =
        field key (redact_json_value (some key) v) (redact_fields fields)
