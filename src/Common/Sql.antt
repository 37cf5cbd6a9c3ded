-- ===== src/Common/Sql.antt =====
-- The SQL statements that the stores use, over a table that is the list of its rows in rowid order.
use Prim.Native.Nat.{ℕ, suc}
use mathlib.Core.Bool.{Bool, true}
use mathlib.Core.Path.{◌≡◌, subst}
use mathlib.Core.Logic.{inl, inr}
use mathlib.Core.Option.{Option, none, some, some_inj}
use mathlib.Core.List.{List, [], ◌∷◌, ◌++◌}
use incidentlens.Common.Tests.{leb, if◌then◌else◌, Bool-cases}
use incidentlens.Common.Lists.{All}

module _ {ℓ} {Row : Type ℓ} where
  -- `SELECT … WHERE p`, then `fetchone()`.
  abbrev pub select_one : (Row → Bool) → List Row → Option Row
  select_one p [] = none
  select_one p (r ∷ rows) = let rest = select_one p rows in if p r then some r else rest

  -- `UPDATE … SET f WHERE p`.
  abbrev pub update_where : (Row → Bool) → (Row → Row) → List Row → List Row
  update_where p f [] = []
  update_where p f (r ∷ rows) = (if p r then f r else r) ∷ update_where p f rows

  -- `cursor.rowcount` of an `UPDATE` or a `DELETE` on the rows with `p`.
  abbrev pub rowcount : (Row → Bool) → List Row → ℕ
  rowcount p [] = 0
  rowcount p (r ∷ rows) = if p r then suc (rowcount p rows) else rowcount p rows

  -- `DELETE … WHERE p`.
  abbrev pub delete_where : (Row → Bool) → List Row → List Row
  delete_where p [] = []
  delete_where p (r ∷ rows) = let rest = delete_where p rows in if p r then rest else r ∷ rest

  -- `INSERT`, where no row has the key.
  abbrev pub insert_row : Row → List Row → List Row
  insert_row r rows = rows ++ r ∷ []

  unfoldable pub insert_by : (Row → ℕ) → Row → List Row → List Row
  insert_by key r [] = r ∷ []
  insert_by key r (s ∷ rows) =
      let rest = insert_by key r rows in if leb (key r) (key s) then r ∷ s ∷ rows else s ∷ rest

  -- `ORDER BY key ASC`; rows with one key stay in rowid order.
  unfoldable pub order_by : (Row → ℕ) → List Row → List Row
  unfolding insert_by
  order_by key [] = []
  order_by key (r ∷ rows) = insert_by key r (order_by key rows)

pub All-delete {ℓ κ} :
    {Row : Type ℓ} (P : Row → Type κ) (p : Row → Bool) (rows : List Row)
    → All P rows
    → All P (delete_where p rows)
All-delete P p [] h = tt
All-delete P p (r ∷ rows) h = elim (Bool-cases (p r)) [
  | inl e ↦ rw e (All-delete P p rows h.1)
  | inr e ↦ rw e (h.0, All-delete P p rows h.1)
]

pub All-update {ℓ κ} :
    {Row : Type ℓ} (P : Row → Type κ) (p : Row → Bool) (f : Row → Row) (rows : List Row)
    → ((r : Row) → p r ≡ true → P r → P (f r))
    → All P rows
    → All P (update_where p f rows)
All-update P p f [] keeps h = tt
All-update P p f (r ∷ rows) keeps h = elim (Bool-cases (p r)) [
  | inl e ↦ rw e (keeps r e h.0, All-update P p f rows keeps h.1)
  | inr e ↦ rw e (h.0, All-update P p f rows keeps h.1)
]

pub All-select_one {ℓ κ} :
    {Row : Type ℓ} (P : Row → Type κ) (p : Row → Bool) (rows : List Row) {r : Row}
    → All P rows
    → select_one p rows ≡ some r
    → P r
All-select_one P p [] {r} h e = absurd (cc e)
All-select_one P p (s ∷ rows) {r} h e = elim (Bool-cases (p s)) [
  | inl q ↦ subst P (some_inj.0 (rw q at e)) h.0
  | inr q ↦ All-select_one P p rows h.1 (rw q at e)
]

pub select_one_holds {ℓ} :
    {Row : Type ℓ} (p : Row → Bool) (rows : List Row) {r : Row}
    → select_one p rows ≡ some r
    → p r ≡ true
select_one_holds p [] h = cc
select_one_holds p (s ∷ rows) {r} h = elim (Bool-cases (p s)) [
  | inl q ↦ subst (λ x. p x ≡ true) (some_inj.0 (rw q at h)) q
  | inr q ↦ select_one_holds p rows (rw q at h)
]
