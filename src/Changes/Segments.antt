-- ===== src/Changes/Segments.antt =====
-- _sanitize_segment of changes/backup.py: no part of a backup's path leaves the vault.
use incidentlens.Common.{
  ℕ, Bool, true, false, ◌&&◌, not, [], ◌∷◌, any, ◌==◌, Text, codes, occurs_in, starts_with, ◌≡◌,
  ◌≢◌, refl, arith, Bool-cases, inl, inr,
}
use incidentlens.Changes.Vault.{replace_char, replace_after, replace_dots, sanitize_segment}

-- A path's part without a separator and without two dots in a row.
abbrev pub IsSegment : Text → Type 0
IsSegment t =
    (any (◌==◌ 47) t ≡ false) × (any (◌==◌ 92) t ≡ false) × (occurs_in (codes "..") t ≡ false)

replace_char-gone : (c : ℕ) (t : Text) → c ≢ 95 → any (◌==◌ c) (replace_char c t) ≡ false
replace_char-gone c [] ne = refl
replace_char-gone c (d ∷ t) ne = ground (arith, replace_char-gone c t ne)

replace_char-absent :
    (c a : ℕ) (t : Text) → a ≢ 95 → any (◌==◌ a) t ≡ false → any (◌==◌ a) (replace_char c t) ≡ false
replace_char-absent c a [] ne h = refl
replace_char-absent c a (d ∷ t) ne h = ground (arith, replace_char-absent c a t ne)

replace_after-absent :
    (a : ℕ) (b : Bool) (t : Text)
    → a ≢ 95
    → a ≢ 46
    → any (◌==◌ a) t ≡ false
    → any (◌==◌ a) (replace_after b t) ≡ false
replace_after-absent a false [] ne nd h = refl
replace_after-absent a true [] ne nd h = ground arith
replace_after-absent a false (d ∷ t) ne nd h =
    ground (arith, replace_after-absent a false t ne nd, replace_after-absent a true t ne nd)
replace_after-absent a true (d ∷ t) ne nd h = ground (arith, replace_after-absent a false t ne nd)

-- No two dots in a row, where `b` says that a dot stands before the text.
abbrev is_clean : Bool → Text → Bool
is_clean b [] = true
is_clean b (d ∷ t) = not (b && d == 46) && is_clean (d == 46) t

is_clean-replace_after : (b : Bool) (t : Text) → is_clean false (replace_after b t) ≡ true
is_clean-replace_after false [] = refl
is_clean-replace_after true [] = refl
is_clean-replace_after false (d ∷ t) = elim (Bool-cases (d == 46)) [
  | inl e ↦ rw e (is_clean-replace_after true t)
  | inr e ↦ rw (e, e) (is_clean-replace_after false t)
]
is_clean-replace_after true (d ∷ t) = elim (Bool-cases (d == 46)) [
  | inl e ↦ rw e (is_clean-replace_after false t)
  | inr e ↦ rw (e, e) (is_clean-replace_after false t)
]

is_clean-replace_char :
    (b : Bool) (t : Text) → is_clean b t ≡ true → is_clean b (replace_char 92 t) ≡ true
is_clean-replace_char b [] h = refl
is_clean-replace_char b (d ∷ t) h = elim (Bool-cases (d == 92)) [
  | inl e ↦ ground (arith, e, is_clean-replace_char false t)
  | inr e ↦ ground (arith, e, is_clean-replace_char (d == 46) t)
]

no_dots :
    (b : Bool) (t : Text)
    → is_clean b t ≡ true
    → (occurs_in (codes "..") t ≡ false) × ((b && starts_with (codes ".") t) ≡ false)
no_dots b [] h = (refl, ground arith)
no_dots b (d ∷ t) h = elim (Bool-cases (d == 46)) [
  | inl e ↦ ground (arith, e, no_dots true t)
  | inr e ↦ ground (arith, e, no_dots false t)
]

pub sanitize_segment-IsSegment : (t : Text) → IsSegment (sanitize_segment t)
sanitize_segment-IsSegment t =
    let plain = replace_char 47 t in
    (
      replace_char-absent 92 47 (replace_dots plain) (ground arith) (
          replace_after-absent 47 false plain (ground arith) (ground arith)
            (replace_char-gone 47 t (ground arith))),
      replace_char-gone 92 (replace_dots plain) (ground arith),
      (no_dots false (sanitize_segment t) (
          is_clean-replace_char false (replace_dots plain) (is_clean-replace_after false plain))).0,
    )
