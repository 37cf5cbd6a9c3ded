-- ===== src/Policy/Same.antt =====
-- The test of `PurePosixPath` for equality, as remote_ops/policy.py and changes/manager.py use it.
use incidentlens.Common.{true, List, [], ◌∷◌, Text, same_text_iff, ◌≡◌, refl, arith}
use incidentlens.Policy.Paths.{
  PurePosixPath, Root, no_root, slash, double_slash, same_root, is_prefix, same_path,
}

same_root-≡ : (a b : Root) → same_root a b ≡ true → a ≡ b
same_root-≡ no_root no_root h = refl
same_root-≡ slash slash h = refl
same_root-≡ double_slash double_slash h = refl
same_root-≡ a b h = absurd (cc h)

prefixes-≡ : (xs ys : List Text) → is_prefix xs ys ≡ true → is_prefix ys xs ≡ true → xs ≡ ys
prefixes-≡ [] [] h k = refl
prefixes-≡ [] (y ∷ ys) h k = absurd (cc k)
prefixes-≡ (x ∷ xs) [] h k = absurd (cc h)
prefixes-≡ (x ∷ xs) (y ∷ ys) h k =
    ground (arith, same_text_iff x y, same_text_iff y x, prefixes-≡ xs ys)

pub same_path-≡ : (p q : PurePosixPath) → same_path p q ≡ true → p ≡ q
same_path-≡ p q h =
    let root : p.root ≡ q.root = same_root-≡ p.root q.root (ground arith) in
    let parts : p.parts ≡ q.parts = prefixes-≡ p.parts q.parts (ground arith) (ground arith) in
    cc (root, parts)

same_root_refl : (a : Root) → same_root a a ≡ true
same_root_refl no_root = refl
same_root_refl slash = refl
same_root_refl double_slash = refl

is_prefix_refl : (xs : List Text) → is_prefix xs xs ≡ true
is_prefix_refl [] = refl
is_prefix_refl (x ∷ xs) = rw ((same_text_iff x x).1 refl) (is_prefix_refl xs)

pub same_path_refl : (p : PurePosixPath) → same_path p p ≡ true
same_path_refl p = rw (same_root_refl p.root, is_prefix_refl p.parts) refl
