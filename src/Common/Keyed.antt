-- ===== src/Common/Keyed.antt =====
-- Tables with a primary key: the rows that a key finds, and the uniqueness that the key enforces.
use Prim.Native.Nat.{ℕ}
use Prim.Native.String.{String}
use mathlib.Core.Path.{◌≡◌, refl, sym, subst}
use mathlib.Core.Logic.{inl, inr, ◌≢◌, ◌↔◌}
use mathlib.Core.Bool.{Bool, true, false, ◌&&◌}
use mathlib.Core.Option
use mathlib.Core.Option.{Option, none, some}
use mathlib.Core.List.{List, [], ◌∷◌}
use native.Mathlib.Omega.{arith}
use text.Mathlib.Text.{◌==◌ as str_eq}
use text.Mathlib.TextEquality.{eq_iff}
use incidentlens.Common.Tests.{if◌then◌else◌, Option-cases}
use incidentlens.Common.Sql.{select_one, update_where, rowcount, insert_row}

-- `if p r then f r else r`, on the row that a key finds.
abbrev pub map_if {ℓ} : {Row : Type ℓ} → (Row → Bool) → (Row → Row) → Row → Row
map_if p f r = if p r then f r else r

abbrev pub count_if {ℓ} : {Row : Type ℓ} → (Row → Bool) → Option Row → ℕ
count_if q none = 0
count_if q (some r) = if q r then 1 else 0

-- The equality of keys.
pub record Key (K : Type 0) : Type 0 where
  pub same : K → K → Bool
  pub same_iff : (a b : K) → (same a b ≡ true) ↔ (a ≡ b)

instance abbrev pub string_key : Key String
string_key = record { same = str_eq; same_iff = eq_iff }

module _ {K : Type 0} ⦃keys : Key K⦄ {Row : Type 0} (key : Row → K) where
  abbrev pub has_key : K → Row → Bool
  has_key k r = keys.same (key r) k

  -- `SELECT … WHERE key = k`.
  abbrev pub find : K → List Row → Option Row
  find k = select_one (has_key k)

  -- What `PRIMARY KEY` enforces.
  abbrev pub IsUnique : List Row → Type 0
  IsUnique [] = Unit {0}
  IsUnique (r ∷ rows) = (find (key r) rows ≡ none) × IsUnique rows

  pub find-update :
      (k : K) (q : Row → Bool) (f : Row → Row) (rows : List Row)
      → ((r : Row) → key (f r) ≡ key r)
      → find k (update_where q f rows) ≡ Option.map (map_if q f) (find k rows)
  find-update k q f [] keeps = refl
  find-update k q f (r ∷ rows) keeps = ground (arith, keeps r, find-update k q f rows keeps)

  pub find-key : (k : K) (rows : List Row) {r : Row} → find k rows ≡ some r → key r ≡ k
  find-key k [] h = cc
  find-key k (s ∷ rows) {r} h = ground (arith, keys.same_iff (key s) k, find-key k rows {r = r})

  pub find_self :
      (k : K) (rows : List Row) {r : Row} → find k rows ≡ some r → find (key r) rows ≡ some r
  find_self k rows {r} h = subst (λ j. find j rows ≡ some r) (sym (find-key k rows h)) h

  pub find-insert_other :
      (k : K) (r : Row) (rows : List Row) → key r ≢ k → find k (insert_row r rows) ≡ find k rows
  find-insert_other k r [] ne = ground (arith, keys.same_iff (key r) k)
  find-insert_other k r (s ∷ rows) ne = rw (find-insert_other k r rows ne)

  pub find-insert_self :
      (k : K) (r : Row) (rows : List Row)
      → key r ≡ k
      → find k rows ≡ none
      → find k (insert_row r rows) ≡ some r
  find-insert_self k r [] e h = ground (arith, keys.same_iff (key r) k)
  find-insert_self k r (s ∷ rows) e h = ground (arith, find-insert_self k r rows e)

  pub IsUnique-update :
      (q : Row → Bool) (f : Row → Row) (rows : List Row)
      → ((r : Row) → key (f r) ≡ key r)
      → IsUnique rows
      → IsUnique (update_where q f rows)
  IsUnique-update q f [] keeps u = tt
  IsUnique-update q f (r ∷ rows) keeps u = (
    ground (arith, keeps r, find-update (key r) q f rows keeps),
    IsUnique-update q f rows keeps u.1,
  )

  pub IsUnique-insert :
      (r : Row) (rows : List Row)
      → find (key r) rows ≡ none
      → IsUnique rows
      → IsUnique (insert_row r rows)
  IsUnique-insert r [] h u = (refl, tt)
  IsUnique-insert r (s ∷ rows) h u = (
    ground (arith, keys.same_iff (key s) (key r), find-insert_other (key s) r rows),
    IsUnique-insert r rows (ground arith) u.1,
  )

  -- At most one row has the key, so the row count of a conditional `UPDATE` says whether that row
  -- meets the condition.
  pub rowcount-find :
      (k : K) (q : Row → Bool) (rows : List Row)
      → IsUnique rows
      → rowcount (λ r. has_key k r && q r) rows ≡ count_if q (find k rows)
  rowcount-find k q [] u = refl
  rowcount-find k q (r ∷ rows) u =
      ground (arith, keys.same_iff (key r) k, rowcount-find k q rows u.1)

  -- A conditional `UPDATE` of the row with the key `k`, seen through `find`.
  module _ (k : K) (p : Row → Bool) (rows : List Row) where
    pub rowcount_absent :
        IsUnique rows → find k rows ≡ none → rowcount (λ r. has_key k r && p r) rows ≡ 0
    rowcount_absent u e = rw (rowcount-find k p rows u, e)

    pub rowcount_hit :
        (r : Row)
        → IsUnique rows
        → find k rows ≡ some r
        → p r ≡ true
        → rowcount (λ r. has_key k r && p r) rows ≡ 1
    rowcount_hit r u e h = rw (rowcount-find k p rows u, e, h)

    pub rowcount_miss :
        (r : Row)
        → IsUnique rows
        → find k rows ≡ some r
        → p r ≡ false
        → rowcount (λ r. has_key k r && p r) rows ≡ 0
    rowcount_miss r u e h = rw (rowcount-find k p rows u, e, h)

    pub update_hit :
        (f : Row → Row) (r : Row)
        → ((r : Row) → key (f r) ≡ key r)
        → find k rows ≡ some r
        → p r ≡ true
        → find k (update_where (λ r. has_key k r && p r) f rows) ≡ some (f r)
    update_hit f r keeps e h =
        rw (find-update k (λ r. has_key k r && p r) f rows keeps, e)
          (rw ((keys.same_iff (key r) k).1 (find-key k rows e), h))

    pub update_other :
        (j : K) (f : Row → Row)
        → ((r : Row) → key (f r) ≡ key r)
        → j ≢ k
        → find j (update_where (λ r. has_key k r && p r) f rows) ≡ find j rows
    update_other j f keeps ne = elim (Option-cases (find j rows)) [
      | inl e ↦ rw (find-update j (λ r. has_key k r && p r) f rows keeps, e)
      | inr (r, e) ↦
          rw (find-update j (λ r. has_key k r && p r) f rows keeps, e)
            (ground (arith, keys.same_iff (key r) k, find-key j rows {r = r} e))
    ]
