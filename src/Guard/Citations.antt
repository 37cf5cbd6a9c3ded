-- ===== src/Guard/Citations.antt =====
-- The citations that `_validate_citations` of investigation/guard.py accepts.
use incidentlens.Common.{
  String, ◌≡◌, ◌≢◌, refl, sym, ◌↔◌, true, List, [], ◌∷◌, ◌++◌, inl, inr, arith, All, Bool-cases,
  eq_iff, str_eq,
}
use mathlib.Core.Bool.{false≢true}
use incidentlens.Guard.Types.{AgentRun, EvidenceReference, Conclusion, Hypothesis, ChildReport}
use incidentlens.Guard.Checks.{
  is_known, missing, is_empty, validate_citations, validate_conclusion, validate_hypothesis,
  validate_child_report,
}

-- The run has collected evidence with the id.
abbrev pub IsCollected : List EvidenceReference → String → Type 0
IsCollected evidence id =
    (before : List EvidenceReference) × (e : EvidenceReference) × (after : List EvidenceReference)
    × (evidence ≡ before ++ e ∷ after)
    × (e.evidence_id ≡ id)

known→collected :
    (evidence : List EvidenceReference) (id : String)
    → is_known evidence id ≡ true
    → IsCollected evidence id
known→collected [] id h = cc
known→collected (e ∷ evidence) id h = elim (Bool-cases (str_eq e.evidence_id id)) [
  | inl s ↦ ([], e, evidence, refl, (eq_iff e.evidence_id id).0 s)
  | inr s ↦
      let (before, f, after, p, q) = known→collected evidence id (rw s at h) in
      (e ∷ before, f, after, rw p refl, q)
]

known-split :
    (before : List EvidenceReference) (e : EvidenceReference) (after : List EvidenceReference)
    → is_known (before ++ e ∷ after) e.evidence_id ≡ true
known-split [] e after = rw ((eq_iff e.evidence_id e.evidence_id).1 refl) refl
known-split (f ∷ before) e after = ground (arith, known-split before e after)

collected→known :
    (evidence : List EvidenceReference) (id : String)
    → IsCollected evidence id
    → is_known evidence id ≡ true
collected→known evidence id (before, e, after, p, q) = rw (p, sym q) (known-split before e after)

none_missing :
    (evidence : List EvidenceReference) (ids : List String)
    → is_empty (missing evidence ids) ≡ true
    → All (IsCollected evidence) ids
none_missing evidence [] h = tt
none_missing evidence (id ∷ ids) h = elim (Bool-cases (is_known evidence id)) [
  | inl k ↦ (known→collected evidence id k, none_missing evidence ids (rw k at h))
  | inr k ↦ absurd (false≢true (rw k at h))
]

missing_none :
    (evidence : List EvidenceReference) (ids : List String)
    → All (IsCollected evidence) ids
    → is_empty (missing evidence ids) ≡ true
missing_none evidence [] h = refl
missing_none evidence (id ∷ ids) h =
    rw (collected→known evidence id h.0) (missing_none evidence ids h.1)

-- What the guard asks of citations: there is one, and the run has collected each.
abbrev pub IsGrounded : AgentRun → List String → Type 0
IsGrounded run ids = (ids ≢ []) × All (IsCollected run.evidence) ids

pub citations_iff :
    (run : AgentRun) (ids : List String) (subject : String)
    → ((validate_citations run ids subject).0 ≡ true) ↔ IsGrounded run ids
unfolding validate_citations
citations_iff run [] subject = ((λ h. absurd (false≢true h)), λ h. absurd (h.0 refl))
citations_iff run (id ∷ ids) subject = (
  (λ h. elim (Bool-cases (is_empty (missing run.evidence (id ∷ ids)))) [
    | inl k ↦ ((λ p. cc), none_missing run.evidence (id ∷ ids) k)
    | inr k ↦ absurd (false≢true (rw k at h))
  ]),
  λ h. rw (missing_none run.evidence (id ∷ ids) h.1) refl,
)

-- A conclusion, a hypothesis and a child's report are accepted exactly where they cite evidence, and
-- each citation is the id of evidence that the run has collected: none is fabricated.
pub IsGrounded-iff :
    (run : AgentRun) (c : Conclusion) (h : Hypothesis) (r : ChildReport)
    → (((validate_conclusion run c).0 ≡ true) ↔ IsGrounded run c.evidence_ids)
      × (((validate_hypothesis run h).0 ≡ true) ↔ IsGrounded run h.evidence_ids)
      × (((validate_child_report run r).0 ≡ true) ↔ IsGrounded run r.evidence_ids)
IsGrounded-iff run c h r = (
  citations_iff run c.evidence_ids "conclusion",
  citations_iff run h.evidence_ids "hypothesis",
  citations_iff run r.evidence_ids "child report",
)
