-- ===== src/Manager/Dicts.antt =====
-- The dictionaries of changes/manager.py: what an assignment leaves.
use incidentlens.Common.{false, some, [], ◌∷◌, ◌≡◌, ◌≢◌, refl, sym, ◌∙◌, Bool-cases, inl, inr}
use incidentlens.Policy.Paths.{PurePosixPath, same_path}
use incidentlens.Manager.Types.{PathDict, get_item, set_item}
use incidentlens.Policy.Same.{same_path-≡, same_path_refl}

pub differs-same_path : (p q : PurePosixPath) → p ≢ q → same_path p q ≡ false
differs-same_path p q ne = elim (Bool-cases (same_path p q)) [
  | inl e ↦ absurd (ne (same_path-≡ p q e))
  | inr e ↦ e
]

module _ {V : Type 0} where
  pub get_item-set_item :
      (p : PurePosixPath) (v : V) (dict : PathDict V) → get_item p (set_item p v dict) ≡ some v
  get_item-set_item p v [] = rw (same_path_refl p) refl
  get_item-set_item p v ((other, old) ∷ dict) = elim (Bool-cases (same_path other p)) [
    | inl e ↦ rw (e, e) refl
    | inr e ↦ rw (e, e) (get_item-set_item p v dict)
  ]

  pub get_item-set_item_other :
      (p q : PurePosixPath) (v : V) (dict : PathDict V)
      → p ≢ q
      → get_item q (set_item p v dict) ≡ get_item q dict
  get_item-set_item_other p q v [] ne = rw (differs-same_path p q ne) refl
  get_item-set_item_other p q v ((other, old) ∷ dict) ne = elim (Bool-cases (same_path other p)) [
    | inl e ↦
        let apart = differs-same_path other q (λ k. ne (sym (same_path-≡ other p e) ∙ k)) in
        rw (e, apart) refl
    | inr e ↦ elim (Bool-cases (same_path other q)) [
      | inl k ↦ rw (e, k) refl
      | inr k ↦ rw (e, k) (get_item-set_item_other p q v dict ne)
    ]
  ]
