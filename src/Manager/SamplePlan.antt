-- ===== src/Manager/SamplePlan.antt =====
-- The sample change is one that the theorems on replacement apply to.
use incidentlens.Common.{
  true, false, none, some, ◌≡◌, ◌≢◌, refl, sym, ap, ◌∙◌, subst, codes, Bool-cases, inl, inr, here,
  there, same_text,
}
use incidentlens.Policy.Paths.{PurePosixPath, host, same_path}
use incidentlens.Manager.Types.{FileMutation, get_item}
use incidentlens.Manager.Replace.{keys}
use incidentlens.Manager.Paths.{sort_paths}
use incidentlens.Manager.Backups.{mem_path}
use incidentlens.Manager.Plan.{In, IsApart, IsReady, IsBacked}
use incidentlens.Policy.Same.{same_path_refl}
use incidentlens.Manager.Replaced.{Scopes}
use incidentlens.Manager.Samples.{content, at, request, files, progress, plan, request_of}

-- A property of every path of the plan, from its two paths.
pub each :
    (P : PurePosixPath → Type 0)
    → P (at "a")
    → P (at "b")
    → (p : PurePosixPath) → In p plan.paths
    → P p
each P a b p (here e) = subst P e a
each P a b p (there (here e)) = subst P e b
each P a b p (there (there i)) = elim i [ ]

pub differ : (p q : PurePosixPath) → same_path p q ≡ false → p ≢ q
differ p q h e = absurd (cc (sym (subst (λ k. same_path p k ≡ true) e (same_path_refl p)) ∙ h))

pub plan-IsApart : IsApart plan
unfolding same_text
plan-IsApart = record {
  canonical-ne = λ p q ip iq ne. ne;
  backup-ne = λ p q ip iq.
      each (λ p. p ≢ q → plan.backup p ≢ plan.backup q)
        (each (λ q. at "a" ≢ q → plan.backup (at "a") ≢ plan.backup q) (λ ne. absurd (ne refl))
          (λ ne. differ (at "a.bak") (at "b.bak") refl) q iq)
        (each (λ q. at "b" ≢ q → plan.backup (at "b") ≢ plan.backup q)
          (λ ne. differ (at "b.bak") (at "a.bak") refl) (λ ne. absurd (ne refl)) q iq)
        p ip;
  canonical-ne-backup = λ p q ip iq.
      each (λ p. p ≢ plan.backup q)
        (each (λ q. at "a" ≢ plan.backup q) (differ (at "a") (at "a.bak") refl)
          (differ (at "a") (at "b.bak") refl) q iq)
        (each (λ q. at "b" ≢ plan.backup q) (differ (at "b") (at "a.bak") refl)
          (differ (at "b") (at "b.bak") refl) q iq)
        p ip;
  canonical-ne-temp = λ p q ip iq.
      each (λ p. p ≢ plan.temp q)
        (each (λ q. at "a" ≢ plan.temp q) (differ (at "a") (at "a.tmp") refl)
          (differ (at "a") (at "b.tmp") refl) q iq)
        (each (λ q. at "b" ≢ plan.temp q) (differ (at "b") (at "a.tmp") refl)
          (differ (at "b") (at "b.tmp") refl) q iq)
        p ip;
  backup-ne-temp = λ p q ip iq.
      each (λ p. plan.backup p ≢ plan.temp q)
        (each (λ q. at "a.bak" ≢ plan.temp q) (differ (at "a.bak") (at "a.tmp") refl)
          (differ (at "a.bak") (at "b.tmp") refl) q iq)
        (each (λ q. at "b.bak" ≢ plan.temp q) (differ (at "b.bak") (at "a.tmp") refl)
          (differ (at "b.bak") (at "b.tmp") refl) q iq)
        p ip;
}

ordered : sort_paths (keys progress.temp_paths) ≡ plan.paths
unfolding sort_paths
ordered = refl

pub world-IsReady : IsReady content plan files progress
unfolding same_text
world-IsReady = record {
  has = record {
    canonicals =
        each (λ p. get_item p progress.canonical_paths ≡ some (plan.canonical p)) refl refl;
    temps = each (λ p. get_item p progress.temp_paths ≡ some (plan.temp p)) refl refl;
    backups =
        each
          (λ p.
            mem_path p plan.new_files ≡ false
            → get_item p progress.backup_paths ≡ some (plan.backup p))
          (λ e. refl) (λ e. refl);
    added = refl;
    entries = ((at "a", here refl, refl), ((at "b", there (here refl), refl), tt));
  };
  untouched = refl;
  in_order = ordered;
  once = (
    (λ i. elim i [ here e ↦ differ (at "b") (at "a") refl e | there h ↦ elim h [ ] ]),
    ((λ i. elim i [ ]), tt),
  );
  backed =
      each (λ p. IsBacked content plan (mem_path p plan.new_files) p files)
        (codes "old a", refl, refl) (codes "old b", refl, refl);
  originals = λ q iq. refl;
}

some-inj : {f g : FileMutation} → some f ≡ some g → f ≡ g
some-inj e = cc e

pub request-Scopes : Scopes host request
request-Scopes p f found = elim (Bool-cases (same_path (at "a") p)) [
  | inl e ↦
      let one : some (request_of "fch-1" "a") ≡ some f = rw e at found in
      ap (λ (g : FileMutation). g.scope) (sym (some-inj one))
  | inr e ↦ elim (Bool-cases (same_path (at "b") p)) [
    | inl e' ↦
        let two : some (request_of "fch-2" "b") ≡ some f = rw (e, e') at found in
        ap (λ (g : FileMutation). g.scope) (sym (some-inj two))
    | inr e' ↦ let no : none ≡ some f = rw (e, e') at found in absurd (cc no)
  ]
]
