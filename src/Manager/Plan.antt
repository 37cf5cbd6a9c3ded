-- ===== src/Manager/Plan.antt =====
-- What the replacement of files by changes/manager.py relies on: the remote file system, and the
-- paths that the steps before it chose.
use incidentlens.Common.{
  Bool, true, false, Option, none, some, List, [], ◌∷◌, ◌++◌, All, Any, here, there, ok, err, ◌≡◌,
  ◌≢◌, sym, ap, ◌∙◌, subst, Bool-cases, inl, inr, ◌⊎◌,
}
use incidentlens.Policy.Paths.{PurePosixPath, same_path, RemoteScope}
use incidentlens.Policy.Same.{same_path-≡, same_path_refl}
use incidentlens.Changes.Vault.{Bytes}
use incidentlens.Manager.Types.{
  Backend, RemoteError, remote, is_uncertain_failure, Progress, get_item,
}
use incidentlens.Manager.Backups.{mem_path}
use incidentlens.Manager.Paths.{sort_paths}
use incidentlens.Manager.Replace.{keys}

-- A path is one of the list.
abbrev pub In : PurePosixPath → List PurePosixPath → Type 0
In p paths = Any (λ (q : PurePosixPath). q ≡ p) paths

pub In-append_left : {p : PurePosixPath} (xs ys : List PurePosixPath) → In p xs → In p (xs ++ ys)
In-append_left [] ys h = elim h [ ]
In-append_left (x ∷ xs) ys (here e) = here e
In-append_left (x ∷ xs) ys (there h) = there (In-append_left xs ys h)

pub In-append_right : {p : PurePosixPath} (xs ys : List PurePosixPath) → In p ys → In p (xs ++ ys)
In-append_right [] ys h = h
In-append_right (x ∷ xs) ys h = there (In-append_right xs ys h)

pub All-In :
    (P : PurePosixPath → Type 0) {p : PurePosixPath} (xs : List PurePosixPath)
    → All P xs
    → In p xs
    → P p
All-In P [] h i = elim i [ ]
All-In P (x ∷ xs) h (here e) = subst P e h.0
All-In P (x ∷ xs) h (there i) = All-In P xs h.1 i

abbrev pub AreDistinct : List PurePosixPath → Type 0
AreDistinct [] = Unit
AreDistinct (p ∷ paths) = ¬ In p paths × AreDistinct paths

-- Whether two paths are one.
pub path_cases : (p q : PurePosixPath) → (p ≡ q) ⊎ (p ≢ q)
path_cases p q = elim (Bool-cases (same_path p q)) [
  | inl e ↦ inl (same_path-≡ p q e)
  | inr e ↦ inr (λ h. absurd (cc (sym e ∙ ap (same_path p) (sym h) ∙ same_path_refl p)))
]

-- A remote file system, seen as the contents of the paths of one scope. A rename moves the content
-- and touches no other path, a removal empties its path; a call that is refused, not lost, changes
-- nothing.
pub record IsFileSystem {R : Type 0} (backend : Backend R) (scope : RemoteScope)
    (content : R → PurePosixPath → Option Bytes) : Type 0 where
  pub rename_moves :
      (a b : PurePosixPath) (r : R) (x : Bytes)
      → content r a ≡ some x
      → (backend.rename scope a b r).0 ≡ ok tt
      → content (backend.rename scope a b r).1 b ≡ some x
  pub rename_elsewhere :
      (a b q : PurePosixPath) (r : R)
      → q ≢ a
      → q ≢ b
      → content (backend.rename scope a b r).1 q ≡ content r q
  pub rename_refused :
      (a b q : PurePosixPath) (r : R) (e : RemoteError)
      → (backend.rename scope a b r).0 ≡ err e
      → is_uncertain_failure (remote e) ≡ false
      → content (backend.rename scope a b r).1 q ≡ content r q
  pub remove_removes :
      (a : PurePosixPath) (r : R)
      → (backend.remove_file scope a r).0 ≡ ok tt
      → content (backend.remove_file scope a r).1 a ≡ none
  pub remove_elsewhere :
      (a q : PurePosixPath) (r : R)
      → q ≢ a
      → content (backend.remove_file scope a r).1 q ≡ content r q

-- The paths of a change, with what stood at each canonical path.
pub record Plan : Type 0 where
  pub paths : List PurePosixPath
  pub canonical : PurePosixPath → PurePosixPath
  pub temp : PurePosixPath → PurePosixPath
  pub backup : PurePosixPath → PurePosixPath
  pub new_files : List PurePosixPath
  pub original : PurePosixPath → Option Bytes

-- No path of the plan is another's.
pub record IsApart (plan : Plan) : Type 0 where
  pub canonical-ne :
      (p q : PurePosixPath)
      → In p plan.paths
      → In q plan.paths
      → p ≢ q
      → plan.canonical p ≢ plan.canonical q
  pub backup-ne :
      (p q : PurePosixPath)
      → In p plan.paths
      → In q plan.paths
      → p ≢ q
      → plan.backup p ≢ plan.backup q
  pub canonical-ne-backup :
      (p q : PurePosixPath) → In p plan.paths → In q plan.paths → plan.canonical p ≢ plan.backup q
  pub canonical-ne-temp :
      (p q : PurePosixPath) → In p plan.paths → In q plan.paths → plan.canonical p ≢ plan.temp q
  pub backup-ne-temp :
      (p q : PurePosixPath) → In p plan.paths → In q plan.paths → plan.backup p ≢ plan.temp q

-- The dictionaries hold the plan.
pub record HasPlan (plan : Plan) (l : Progress) : Type 0 where
  pub canonicals :
      (p : PurePosixPath) → In p plan.paths → get_item p l.canonical_paths ≡ some (plan.canonical p)
  pub temps : (p : PurePosixPath) → In p plan.paths → get_item p l.temp_paths ≡ some (plan.temp p)
  pub backups :
      (p : PurePosixPath)
      → In p plan.paths
      → mem_path p plan.new_files ≡ false
      → get_item p l.backup_paths ≡ some (plan.backup p)
  pub added : l.new_files ≡ plan.new_files
  pub entries :
      All
        (λ (entry : PurePosixPath × PurePosixPath).
          (p : PurePosixPath) × In p plan.paths × (entry.1 ≡ plan.temp p))
        l.temp_paths

-- What a restore of a file needs: a new file was absent, and another's backup has its content.
abbrev pub IsBacked :
    {R : Type 0} → (R → PurePosixPath → Option Bytes) → Plan → Bool → PurePosixPath → R → Type 0
IsBacked content plan true p r = plan.original p ≡ none
IsBacked content plan false p r =
    (x : Bytes) × (plan.original p ≡ some x) × (content r (plan.backup p) ≡ some x)

-- The state before the renames: nothing is applied, each file stands as it was and is backed up,
-- and no path comes twice.
pub record IsReady {R : Type 0} (content : R → PurePosixPath → Option Bytes) (plan : Plan) (r : R)
    (l : Progress) : Type 0 where
  pub has : HasPlan plan l
  pub untouched : l.applied_files ≡ []
  pub in_order : sort_paths (keys l.temp_paths) ≡ plan.paths
  pub once : AreDistinct plan.paths
  pub backed :
      (q : PurePosixPath) → In q plan.paths → IsBacked content plan (mem_path q plan.new_files) q r
  pub originals :
      (q : PurePosixPath) → In q plan.paths → content r (plan.canonical q) ≡ plan.original q

pub IsBacked-same :
    {R : Type 0} (content : R → PurePosixPath → Option Bytes) (plan : Plan) (b : Bool)
    (q : PurePosixPath) (r s : R)
    → content s (plan.backup q) ≡ content r (plan.backup q)
    → IsBacked content plan b q r
    → IsBacked content plan b q s
IsBacked-same content plan true q r s same h = h
IsBacked-same content plan false q r s same (x, o, c) = (x, o, same ∙ c)
