-- ===== src/Common/Ordered.antt =====
-- `SELECT … WHERE p ORDER BY key` over a table with a primary key: it finds the rows with `p`.
use Prim.Native.Nat.{ℕ}
use mathlib.Core.Path.{◌≡◌, refl, ◌∙◌}
use mathlib.Core.Logic.{inl, inr}
use mathlib.Core.Bool.{Bool, true, not}
use mathlib.Core.Option.{Option, none, some}
use mathlib.Core.List.{List, [], ◌∷◌}
use native.Mathlib.Omega.{arith}
use incidentlens.Common.Tests.{if◌then◌else◌, leb, Bool-cases}
use incidentlens.Common.Lists.{filter, All, All-mono}
use incidentlens.Common.Sql.{insert_by, order_by, delete_where}
use incidentlens.Common.Keyed.{Key, find, has_key, IsUnique}

-- The row, if it has `p`.
abbrev pub keep_if {ℓ} : {Row : Type ℓ} → (Row → Bool) → Option Row → Option Row
keep_if p none = none
keep_if p (some r) = if p r then some r else none

-- `DELETE … WHERE p` keeps the rows without `p`.
pub delete_where-filter {ℓ} :
    {Row : Type ℓ} (p : Row → Bool) (rows : List Row)
    → delete_where p rows ≡ filter (λ r. not (p r)) rows
delete_where-filter p [] = refl
delete_where-filter p (r ∷ rows) = ground (arith, delete_where-filter p rows)

module _ {K : Type 0} ⦃keys : Key K⦄ {Row : Type 0} (key : Row → K) where
  pub find-filter :
      (k : K) (p : Row → Bool) (rows : List Row)
      → IsUnique key rows
      → find key k (filter p rows) ≡ keep_if p (find key k rows)
  find-filter k p [] u = refl
  find-filter k p (r ∷ rows) u = ground (arith, keys.same_iff (key r) k, find-filter k p rows u.1)

  pub IsUnique-filter :
      (p : Row → Bool) (rows : List Row) → IsUnique key rows → IsUnique key (filter p rows)
  IsUnique-filter p [] u = tt
  IsUnique-filter p (r ∷ rows) u = elim (Bool-cases (p r)) [
    | inl h ↦ rw h (rw (find-filter (key r) p rows u.1, u.0), IsUnique-filter p rows u.1)
    | inr h ↦ rw h (IsUnique-filter p rows u.1)
  ]

  module _ (sort_key : Row → ℕ) where
    find-insert_by :
        (k : K) (r : Row) (rows : List Row)
        → find key (key r) rows ≡ none
        → find key k (insert_by sort_key r rows)
          ≡ (if has_key key k r then some r else find key k rows)
    unfolding insert_by
    find-insert_by k r [] h = refl
    find-insert_by k r (s ∷ rows) h = ground (
      arith,
      keys.same_iff (key r) k,
      keys.same_iff (key s) k,
      keys.same_iff (key s) (key r),
      find-insert_by k r rows,
    )

    IsUnique-insert_by :
        (r : Row) (rows : List Row)
        → find key (key r) rows ≡ none
        → IsUnique key rows
        → IsUnique key (insert_by sort_key r rows)
    unfolding insert_by
    IsUnique-insert_by r [] h u = (refl, tt)
    IsUnique-insert_by r (s ∷ rows) h u =
        let tail : find key (key r) rows ≡ none = ground (arith) in
        let fresh : find key (key s) (insert_by sort_key r rows) ≡ none = ground (
          arith,
          keys.same_iff (key r) (key s),
          keys.same_iff (key s) (key r),
          find-insert_by (key s) r rows tail,
        ) in
        elim (Bool-cases (leb (sort_key r) (sort_key s))) [
          | inl before ↦ rw before (h, u)
          | inr after ↦ rw after (fresh, IsUnique-insert_by r rows tail u.1)
        ]

    pub find-order_by :
        (k : K) (rows : List Row)
        → IsUnique key rows
        → find key k (order_by sort_key rows) ≡ find key k rows
    unfolding order_by
    find-order_by k [] u = refl
    find-order_by k (r ∷ rows) u =
        find-insert_by k r (order_by sort_key rows) (find-order_by (key r) rows u.1 ∙ u.0)
        ∙ rw (find-order_by k rows u.1)

    pub IsUnique-order_by :
        (rows : List Row) → IsUnique key rows → IsUnique key (order_by sort_key rows)
    unfolding order_by
    IsUnique-order_by [] u = tt
    IsUnique-order_by (r ∷ rows) u =
        IsUnique-insert_by r (order_by sort_key rows) (find-order_by (key r) rows u.1 ∙ u.0)
          (IsUnique-order_by rows u.1)

pub All-filter {ℓ κ} :
    {Row : Type ℓ} (P : Row → Type κ) (p : Row → Bool) (rows : List Row)
    → All P rows
    → All (λ r. P r × (p r ≡ true)) (filter p rows)
All-filter P p [] h = tt
All-filter P p (r ∷ rows) h = elim (Bool-cases (p r)) [
  | inl e ↦ rw e ((h.0, e), All-filter P p rows h.1)
  | inr e ↦ rw e (All-filter P p rows h.1)
]

All-insert_by {ℓ κ} :
    {Row : Type ℓ} (P : Row → Type κ) (sort_key : Row → ℕ) (r : Row) (rows : List Row)
    → P r
    → All P rows
    → All P (insert_by sort_key r rows)
unfolding insert_by
All-insert_by P sort_key r [] p h = (p, tt)
All-insert_by P sort_key r (s ∷ rows) p h = elim (Bool-cases (leb (sort_key r) (sort_key s))) [
  | inl e ↦ rw e (p, h)
  | inr e ↦ rw e (h.0, All-insert_by P sort_key r rows p h.1)
]

pub All-order_by {ℓ κ} :
    {Row : Type ℓ} (P : Row → Type κ) (sort_key : Row → ℕ) (rows : List Row)
    → All P rows
    → All P (order_by sort_key rows)
unfolding order_by
All-order_by P sort_key [] h = tt
All-order_by P sort_key (r ∷ rows) h =
    All-insert_by P sort_key r (order_by sort_key rows) h.0 (All-order_by P sort_key rows h.1)

-- Over a table with a primary key, the key of each row finds that row.
pub rows_found :
    {K : Type 0} ⦃keys : Key K⦄ {Row : Type 0} (key : Row → K) (rows : List Row)
    → IsUnique key rows
    → All (λ (r : Row). find key (key r) rows ≡ some r) rows
rows_found key [] u = tt
rows_found ⦃keys⦄ key (r ∷ rows) u = (
  rw ((keys.same_iff (key r) (key r)).1 refl) refl,
  All-mono _ _ rows
      (λ s e. elim (Bool-cases (has_key key (key s) r)) [
        | inl k ↦ absurd (cc ((keys.same_iff (key r) (key s)).0 k))
        | inr k ↦ rw k e
      ])
      (rows_found key rows u.1),
)
