-- ===== src/Events/Tests.antt =====
-- Calls of events/ on a log of three events and on a broker with two subscribers.
use incidentlens.Common.{none, some, [], ◌∷◌, ◌≡◌, refl, map, arith}
use incidentlens.Common.Sql.{order_by}
use incidentlens.Operation.Json.{text, end, field}
use incidentlens.Events.Types.{RuntimeEvent, EventTable, operation_queued, operation_running}
use incidentlens.Events.Store.{PageFilter, append, event_of, select_after, matches}
use incidentlens.Events.Order.{IsLog, append-IsLog}
use incidentlens.Events.Pages.{remaining, read_all, read_all_lem}
use incidentlens.Events.Broker.{Broker, EachKeeps, subscribe, publish_all, publish_all-EachKeeps}

abbrev queued : RuntimeEvent
queued = record {
  event_id = "evt-1";
  sequence = 0;
  event_type = operation_queued;
  occurred_at = 10;
  payload = field "target_id" (text "web-1") end;
}

abbrev running : RuntimeEvent
running = record {
  event_id = "evt-2";
  sequence = 0;
  event_type = operation_running;
  occurred_at = 20;
  payload = field "target_id" (text "web-1") end;
}

abbrev other : RuntimeEvent
other = record {
  event_id = "evt-3";
  sequence = 0;
  event_type = operation_running;
  occurred_at = 30;
  payload = field "target_id" (text "web-2") end;
}

abbrev empty : EventTable
empty = record { rows = []; last_sequence = 0 }

abbrev log : EventTable
log = (append running (append other (append queued empty).1).1).1

log-IsLog : IsLog log
log-IsLog =
    append-IsLog running (append other (append queued empty).1).1
      (append-IsLog other (append queued empty).1 (append-IsLog queued empty (tt, omega arith)))

abbrev on_web_1 : PageFilter
on_web_1 = record {
  session_id = none;
  target_id = some "web-1";
  investigation_id = none;
  event_types = [];
  allowed_target_ids = some ("web-1" ∷ "web-2" ∷ []);
}

read_all_test :
    read_all 3 0 1 on_web_1 log
    ≡ record queued { sequence = 1 } ∷ record running { sequence = 3 } ∷ []
unfolding read_all order_by append
read_all_test = refl

read_all_lem_example : read_all 3 0 1 on_web_1 log ≡ map event_of (remaining 0 on_web_1 log)
unfolding select_after order_by append matches
read_all_lem_example =
    read_all_lem 3 0 1 on_web_1 log log-IsLog (omega arith) (omega arith) (omega arith)

abbrev broker : Broker
broker = subscribe 8 (subscribe 7 (record { queue_size = 2; subscribers = [] }))

publish_all-EachKeeps_example :
    EachKeeps 2
      (queued ∷ other ∷ running ∷ [])
      broker.subscribers
      (publish_all (queued ∷ other ∷ running ∷ []) broker).subscribers
publish_all-EachKeeps_example =
    publish_all-EachKeeps (queued ∷ other ∷ running ∷ []) broker (omega arith)
      (omega arith, (omega arith, tt))
