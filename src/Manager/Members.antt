-- ===== src/Manager/Members.antt =====
-- Members of lists of paths, at their ends and reversed.
use incidentlens.Common.{
  List, [], ◌∷◌, ◌++◌, All, All-append, here, there, ◌≡◌, ◌⊎◌, inl, inr, sym, subst,
}
use mathlib.Core.List.{reverse, reverse-cons}
use incidentlens.Policy.Paths.{PurePosixPath}
use incidentlens.Manager.Plan.{In, In-append_left, In-append_right, AreDistinct}

pub In-snoc :
    {q : PurePosixPath} (xs : List PurePosixPath) (p : PurePosixPath)
    → In q (xs ++ p ∷ [])
    → In q xs ⊎ (p ≡ q)
In-snoc [] p (here e) = inr e
In-snoc [] p (there h) = elim h [ ]
In-snoc (x ∷ xs) p (here e) = inl (here e)
In-snoc (x ∷ xs) p (there h) = elim (In-snoc xs p h) [ inl i ↦ inl (there i) | inr e ↦ inr e ]

pub In-last : {p q : PurePosixPath} (xs : List PurePosixPath) → p ≡ q → In q (xs ++ p ∷ [])
In-last [] e = here e
In-last (x ∷ xs) e = there (In-last xs e)

pub AreDistinct-snoc :
    (xs : List PurePosixPath) (p : PurePosixPath)
    → AreDistinct xs
    → ¬ In p xs
    → AreDistinct (xs ++ p ∷ [])
AreDistinct-snoc [] p d out = ((λ h. elim h [ ]), tt)
AreDistinct-snoc (x ∷ xs) p d out = (
  λ h. elim (In-snoc xs p h) [ inl i ↦ d.0 i | inr e ↦ out (here (sym e)) ],
  AreDistinct-snoc xs p d.1 (λ h. out (there h)),
)

pub In-reverse : {q : PurePosixPath} (xs : List PurePosixPath) → In q (reverse xs) → In q xs
In-reverse [] h = h
In-reverse {q} (x ∷ xs) h = elim (In-snoc (reverse xs) x (subst (In q) (reverse-cons x xs) h)) [
  | inl i ↦ there (In-reverse xs i)
  | inr e ↦ here e
]

pub reverse-In : {q : PurePosixPath} (xs : List PurePosixPath) → In q xs → In q (reverse xs)
reverse-In [] h = h
reverse-In {q} (x ∷ xs) (here e) =
    subst (In q) (sym (reverse-cons x xs)) (In-append_right (reverse xs) (x ∷ []) (here e))
reverse-In {q} (x ∷ xs) (there h) =
    subst (In q) (sym (reverse-cons x xs)) (In-append_left (reverse xs) (x ∷ []) (reverse-In xs h))

pub AreDistinct-reverse : (xs : List PurePosixPath) → AreDistinct xs → AreDistinct (reverse xs)
AreDistinct-reverse [] d = d
AreDistinct-reverse (x ∷ xs) d =
    subst AreDistinct (sym (reverse-cons x xs))
      (AreDistinct-snoc (reverse xs) x (AreDistinct-reverse xs d.1) (λ h. d.0 (In-reverse xs h)))

pub All-reverse :
    (P : PurePosixPath → Type 0) (xs : List PurePosixPath) → All P xs → All P (reverse xs)
All-reverse P [] h = tt
All-reverse P (x ∷ xs) h =
    subst (All P) (sym (reverse-cons x xs))
      (All-append P (reverse xs) (x ∷ []) (All-reverse P xs h.1) (h.0, tt))
