-- ===== src/Events/Store.antt =====
-- class RuntimeEventStore of events/store.py.
use incidentlens.Common.{
  ℕ, suc, String, Bool, true, false, ◌&&◌, ◌||◌, not, Option, none, some, is_some, List, [], ◌∷◌,
  map, filter, any, take, length, if◌then◌else◌, leb, ltb, str_eq, Result, ok, err, Action,
}
use incidentlens.Common.Sql.{insert_row, order_by}
use incidentlens.Common.Keyed.{string_key, find}
use incidentlens.Operation.Json.{Json, Fields, text}
use incidentlens.Operation.Json.{get_field}
use incidentlens.Events.Types.{
  event_type_value, RuntimeEventType, RuntimeEvent, EventRow, EventTable, EventError,
  RuntimeEventPage, integrity_error, value_error,
}

abbrev pub event_key : EventRow → String
event_key r = r.event.event_id

abbrev pub sequence_of : EventRow → ℕ
sequence_of r = r.event.sequence

-- `_payload_string`.
abbrev text_of : Option Json → Option String
text_of (some (text s)) = some s
text_of _ = none

abbrev pub payload_string : Fields → String → Option String
payload_string payload key = text_of (get_field key payload)

-- The row that `append` inserts, with its sequence.
unfoldable pub new_row : RuntimeEvent → ℕ → EventRow
new_row event sequence = record {
  event = record event { sequence = sequence };
  schema_version = 1;
  session_id = payload_string event.payload "session_id";
  target_id = payload_string event.payload "target_id";
  investigation_id = payload_string event.payload "investigation_id";
}

unfoldable pub append : RuntimeEvent → Action EventTable EventError RuntimeEvent
unfolding new_row
append event table =
    if is_some (find event_key event.event_id table.rows) then (err integrity_error, table) else (
      ok (record event { sequence = suc table.last_sequence }),
      record {
        rows = insert_row (new_row event (suc table.last_sequence)) table.rows;
        last_sequence = suc table.last_sequence;
      },
    )

abbrev pub event_of : EventRow → RuntimeEvent
event_of r = r.event

-- `SELECT … WHERE sequence > after AND p ORDER BY sequence ASC`.
unfoldable pub select_after : ℕ → (EventRow → Bool) → List EventRow → List EventRow
select_after after p rows =
    order_by sequence_of (filter (λ r. ltb after r.event.sequence && p r) rows)

unfoldable pub list_after : ℕ → ℕ → EventTable → Result EventError (List RuntimeEvent)
unfolding select_after
list_after sequence limit table =
    if not (leb 1 limit && leb limit 1000)
    then err value_error
    else ok (map event_of (take limit (select_after sequence (λ r. true) table.rows)))

-- The filters of `list_page`.
pub record PageFilter : Type 0 where
  pub session_id : Option String
  pub target_id : Option String
  pub investigation_id : Option String
  pub event_types : List RuntimeEventType
  pub allowed_target_ids : Option (List String)

-- `column = ?`; a NULL column is equal to nothing.
abbrev equals : String → Option String → Bool
equals value none = false
equals value (some column) = str_eq column value

abbrev about_session : Option String → Option String → EventRow → Bool
about_session none none r = true
about_session (some session) none r = equals session r.session_id
about_session none (some investigation) r = equals investigation r.investigation_id
about_session (some session) (some investigation) r =
    equals session r.session_id || equals investigation r.investigation_id

abbrev about_target : Option String → EventRow → Bool
about_target none r = true
about_target (some target) r = equals target r.target_id

abbrev allowed_target : Option (List String) → Option String → Bool
allowed_target none target = true
allowed_target (some []) target = false
allowed_target (some (id ∷ ids)) none = true
allowed_target (some (id ∷ ids)) (some target) = any (str_eq target) (id ∷ ids)

abbrev same_type : RuntimeEventType → RuntimeEventType → Bool
same_type a b = str_eq (event_type_value a) (event_type_value b)

-- `event_type IN (…)`, where there are types.
abbrev of_type : List RuntimeEventType → EventRow → Bool
of_type [] r = true
of_type (t ∷ types) r = any (same_type r.event.event_type) (t ∷ types)

unfoldable pub matches : PageFilter → EventRow → Bool
matches filters r =
    about_session filters.session_id filters.investigation_id r
    && about_target filters.target_id r
    && of_type filters.event_types r
    && allowed_target filters.allowed_target_ids r.target_id

abbrev latest_of : List EventRow → ℕ
latest_of [] = 0
latest_of (r ∷ rows) =
    let later = latest_of rows in if leb later r.event.sequence then r.event.sequence else later

abbrev earliest_from : ℕ → List EventRow → ℕ
earliest_from first [] = first
earliest_from first (r ∷ rows) =
    earliest_from (if ltb r.event.sequence first then r.event.sequence else first) rows

abbrev earliest_of : List EventRow → ℕ
earliest_of [] = 0
earliest_of (r ∷ rows) = earliest_from r.event.sequence rows

-- `items[-1].sequence if items else after_sequence`.
abbrev pub last_sequence_or : ℕ → List EventRow → ℕ
last_sequence_or after [] = after
last_sequence_or after (r ∷ rows) = last_sequence_or r.event.sequence rows

-- The page, from the rows that the query returned.
abbrev pub page_of : ℕ → ℕ → List EventRow → List EventRow → RuntimeEventPage
page_of after limit found rows = record {
  items = map event_of (take limit found);
  next_after_sequence = last_sequence_or after (take limit found);
  has_more = ltb limit (length found);
  latest_sequence = latest_of rows;
  earliest_available_sequence = earliest_of rows;
}

unfoldable pub list_page : ℕ → ℕ → PageFilter → EventTable → Result EventError RuntimeEventPage
unfolding matches event_type_value select_after
list_page after limit filters table =
    if not (leb 1 limit && leb limit 500)
    then err value_error
    else ok (
        page_of after limit (take (suc limit) (select_after after (matches filters) table.rows))
          table.rows)
