-- ===== src/Events/Pages.antt =====
-- Paging through events/store.py with the cursor that each page returns.
use incidentlens.Common.{
  ℕ, zero, suc, ◌<◌, ◌≤◌, true, ◌&&◌, List, [], ◌++◌, filter, take, drop, length, if◌then◌else◌,
  leb, ltb, le→leb, Result, ok, err, ◌≡◌, refl, sym, ap, ◌∙◌, arith, Bool-cases, inl, inr, map,
  subst,
}
use incidentlens.Events.Types.{RuntimeEvent, EventRow, EventTable, EventError, RuntimeEventPage}
use incidentlens.Events.Store.{
  event_of, select_after, last_sequence_or, PageFilter, matches, list_page, page_of,
}
use incidentlens.Events.Rows.{
  after_cursor, select_after-IsAbove, last-IsAbove, filter-drop, filter_twice, filter-IsAbove,
  take_less, length-take_more, take-drop, take_all, length-drop,
}
use incidentlens.Events.Order.{IsAbove, IsLog}

-- The rows that the pages after a cursor are made from.
abbrev pub remaining : ℕ → PageFilter → EventTable → List EventRow
remaining after filters table = select_after after (matches filters) table.rows

-- What a page says of the rows after its cursor.
pub record IsPage (after limit : ℕ) (filters : PageFilter) (table : EventTable)
    (page : RuntimeEventPage) : Type 0 where
  pub items_are : page.items ≡ map event_of (take limit (remaining after filters table))
  pub more_is : page.has_more ≡ ltb limit (length (remaining after filters table))
  pub next_is :
      remaining page.next_after_sequence filters table ≡ drop limit (remaining after filters table)

next_rows :
    (after n : ℕ) (filters : PageFilter) (table : EventTable)
    → IsLog table
    → remaining
        (last_sequence_or after (take (suc n) (remaining after filters table)))
        filters
        table
      ≡ drop (suc n) (remaining after filters table)
next_rows after n filters table log =
    let found = filter (after_cursor after (matches filters)) table.rows in
    let here : remaining after filters table ≡ found =
      select_after-IsAbove after (matches filters) table.rows log.0 in
    let above : IsAbove after found = filter-IsAbove after (matches filters) 0 table.rows log.0 in
    let next = last_sequence_or after (take (suc n) found) in
    rw here (
      select_after-IsAbove next (matches filters) table.rows log.0
      ∙ filter_twice after next (matches filters) table.rows
          (last-IsAbove after (suc n) found above)
      ∙ filter-drop after n found above)

page_of-IsPage :
    (after limit : ℕ) (filters : PageFilter) (table : EventTable)
    → 1 ≤ limit
    → IsLog table
    → IsPage after limit filters table
        (page_of after limit (take (suc limit) (remaining after filters table)) table.rows)
page_of-IsPage after zero filters table le log = absurd (omega arith)
page_of-IsPage after (suc n) filters table le log = record {
  items_are = ap (map event_of) (take_less (suc n) (remaining after filters table));
  more_is = length-take_more (suc n) (remaining after filters table);
  next_is =
      ap (λ rows. remaining (last_sequence_or after rows) filters table)
        (take_less (suc n) (remaining after filters table))
      ∙ next_rows after n filters table log;
}

ok_inj :
    {a b : RuntimeEventPage} → ◌≡◌ {A = Result EventError RuntimeEventPage} (ok a) (ok b) → a ≡ b
ok_inj e = cc e

list_page_ok :
    (after limit : ℕ) (filters : PageFilter) (table : EventTable)
    → (leb 1 limit && leb limit 500) ≡ true
    → list_page after limit filters table
      ≡ ok (page_of after limit (take (suc limit) (remaining after filters table)) table.rows)
unfolding list_page
list_page_ok after limit filters table e = rw e refl

-- A page from a log holds the first rows after its cursor that pass the filter, as many as the
-- limit allows, says whether there are more, and its next cursor leaves exactly the others: no row
-- is skipped and none is given twice.
pub list_page-IsPage :
    (after limit : ℕ) (filters : PageFilter) (table : EventTable) {page : RuntimeEventPage}
    → IsLog table
    → list_page after limit filters table ≡ ok page
    → IsPage after limit filters table page
unfolding list_page
list_page-IsPage after limit filters table {page} log h =
    elim (Bool-cases (leb 1 limit && leb limit 500)) [
      | inr e ↦ absurd (cc (rw e at h))
      | inl e ↦
          subst (IsPage after limit filters table)
            (ok_inj (sym (list_page_ok after limit filters table e) ∙ h))
            (page_of-IsPage after limit filters table (ground (arith, e)) log)
    ]

-- What is read from a page on; `more` reads from the next cursor.
abbrev from_page : Result EventError RuntimeEventPage → (ℕ → List RuntimeEvent) → List RuntimeEvent
from_page (err e) more = []
from_page (ok page) more =
    if page.has_more then page.items ++ more page.next_after_sequence else page.items

-- A reader that asks for pages until one says that there are no more; `fuel` bounds the calls.
unfoldable pub read_all : ℕ → ℕ → ℕ → PageFilter → EventTable → List RuntimeEvent
unfolding list_page
read_all zero after limit filters table = []
read_all (suc fuel) after limit filters table =
    from_page (list_page after limit filters table) (λ next. read_all fuel next limit filters table)

read_page :
    (limit : ℕ) (filters : PageFilter) (table : EventTable) (found : List EventRow) (fuel : ℕ)
    (more : ℕ → List RuntimeEvent) (page : RuntimeEventPage)
    → page.items ≡ map event_of (take limit found)
    → page.has_more ≡ ltb limit (length found)
    → remaining page.next_after_sequence filters table ≡ drop limit found
    → ((next : ℕ)
        → length (remaining next filters table) < fuel
        → more next ≡ map event_of (remaining next filters table))
    → 1 ≤ limit
    → length found < suc fuel
    → from_page (ok page) more ≡ map event_of found
read_page limit filters table found fuel more page items more_is next ih low enough =
    elim (Bool-cases (ltb limit (length found))) [
      | inr e ↦
          rw (more_is, e) (items ∙ ap (map event_of) (take_all limit found (ground (arith, e))))
      | inl e ↦
          let left = length-drop limit found (ground (arith, e)) in
          let short : length (drop limit found) < fuel = omega (arith, left, enough, low) in
          rw (more_is, e, items, ih page.next_after_sequence (rw next short), next)
            (take-drop event_of limit found)
    ]

-- Reading a log page by page from any cursor gives every event after it that passes the filter,
-- once and in order, where the limit is in its bounds and more calls are allowed than there are
-- such events.
pub read_all_lem :
    (fuel after limit : ℕ) (filters : PageFilter) (table : EventTable)
    → IsLog table
    → 1 ≤ limit
    → limit ≤ 500
    → length (remaining after filters table) < fuel
    → read_all fuel after limit filters table ≡ map event_of (remaining after filters table)
unfolding read_all
read_all_lem zero after limit filters table log low high enough = absurd (omega (arith, enough))
read_all_lem (suc fuel) after limit filters table log low high enough =
    let page = page_of after limit (take (suc limit) (remaining after filters table)) table.rows in
    let run =
      list_page_ok after limit filters table
        (rw (le→leb 1 limit low, le→leb limit 500 high) refl) in
    let says = list_page-IsPage after limit filters table log run in
    ap (λ o. from_page o (λ next. read_all fuel next limit filters table)) run
    ∙ read_page limit filters table (remaining after filters table) fuel
        (λ next. read_all fuel next limit filters table) page says.items_are says.more_is
        says.next_is (λ next h. read_all_lem fuel next limit filters table log low high h) low
        enough
