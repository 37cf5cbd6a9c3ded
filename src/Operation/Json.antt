-- ===== src/Operation/Json.antt =====
-- The JSON values that operations/service.py redacts. A text is given by the value that it denotes.
use incidentlens.Common.{String, Bool, Option, none, some, if◌then◌else◌, str_eq}

mutual
  pub data Json : Type 0 where
    null : Json
    boolean : Bool → Json
    number : String → Json
    text : String → Json
    array : Items → Json
    object : Fields → Json

  pub data Items : Type 0 where
    nil : Items
    cons : Json → Items → Items

  pub data Fields : Type 0 where
    end : Fields
    field : String → Json → Fields → Fields

-- A `request_payload` text: JSON, or no JSON (`JSONDecodeError`).
pub data Payload : Type 0 where
  malformed : Payload
  json : Json → Payload

-- `fields.get(key)`.
abbrev pub get_field : String → Fields → Option Json
get_field key end = none
get_field key (field k v rest) =
    let later = get_field key rest in if str_eq k key then some v else later
