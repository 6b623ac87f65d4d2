-- ===== src/Core/Planning/Shape.antt =====
-- What the local rules of planning.rs accept.
use resolve.Base.{
  ◌≡◌, ◌≢◌, refl, ◌↔◌, ◌⊎◌, inl, inr, true, false, List, [], ◌∷◌, ok, err, arith, ◌||◌, map,
  is_empty, DecEq,
}
use resolve.Base.Canonical.{contains}
use resolve.Core.Types.{CommitmentId, ClaimEpoch, Prerequisite}
use resolve.Core.Equality.{identifier_eq, prerequisite_eq}
use resolve.Core.Error.{Domain, DomainError}
use resolve.Core.Planning.{
  NewCommitment, decompose, duplicate_after, has_duplicate_prerequisites, insert_ids,
  validate_child_prerequisites, validate_proposal_shape,
}

module _ {A : Type 0} ⦃d : DecEq A⦄ where
  -- No element equals one behind it.
  abbrev pub IsDistinct : List A → Type 0
  IsDistinct [] = Unit
  IsDistinct (x ∷ xs) = (contains xs x ≡ false) × IsDistinct xs

  -- No element of the second list stands in the first.
  abbrev Apart : List A → List A → Type 0
  Apart seen [] = Unit
  Apart seen (x ∷ xs) = (contains seen x ≡ false) × Apart seen xs

  Apart-cons :
      (y : A) (seen xs : List A) → Apart (y ∷ seen) xs ↔ ((contains xs y ≡ false) × Apart seen xs)
  unfolding contains
  Apart-cons y seen [] = ground arith
  Apart-cons y seen (x ∷ xs) = ground (arith, Apart-cons y seen xs)

  Apart-nil : (xs : List A) → Apart [] xs
  unfolding contains
  Apart-nil [] = tt
  Apart-nil (x ∷ xs) = (refl, Apart-nil xs)

duplicate_after-eq-false :
    (seen ps : List Prerequisite)
    → (duplicate_after seen ps ≡ false) ↔ (Apart seen ps × IsDistinct ps)
unfolding duplicate_after
duplicate_after-eq-false seen [] = ground arith
duplicate_after-eq-false seen (p ∷ ps) =
    ground (arith, duplicate_after-eq-false (p ∷ seen) ps, Apart-cons p seen ps)

-- The test finds a duplicate exactly when the prerequisites are not pairwise different.
pub has_duplicate_prerequisites_iff :
    (ps : List Prerequisite) → (has_duplicate_prerequisites ps ≡ false) ↔ IsDistinct ps
unfolding has_duplicate_prerequisites
has_duplicate_prerequisites_iff ps = ground (arith, duplicate_after-eq-false [] ps, Apart-nil ps)

abbrev pub ids : List NewCommitment → List CommitmentId
ids children = map (λ c. c.commitment_id) children

abbrev pub DistinctChildren : List NewCommitment → Type 0
DistinctChildren [] = Unit
DistinctChildren (c ∷ cs) = IsDistinct c.prerequisites × DistinctChildren cs

validate_child_prerequisites_iff :
    (cs : List NewCommitment) → (validate_child_prerequisites cs ≡ ok tt) ↔ DistinctChildren cs
unfolding validate_child_prerequisites
validate_child_prerequisites_iff [] = ground arith
validate_child_prerequisites_iff (c ∷ cs) =
    ground
      (arith, has_duplicate_prerequisites_iff c.prerequisites, validate_child_prerequisites_iff cs)

push_ids : List NewCommitment → List CommitmentId → List CommitmentId
push_ids [] seen = seen
push_ids (c ∷ cs) seen = push_ids cs (c.commitment_id ∷ seen)

contains-push_ids :
    (cs : List NewCommitment) (seen : List CommitmentId) (r : CommitmentId)
    → contains (push_ids cs seen) r ≡ (contains seen r || contains (ids cs) r)
unfolding contains push_ids
contains-push_ids [] seen r = ground arith
contains-push_ids (c ∷ cs) seen r = ground (arith, contains-push_ids cs (c.commitment_id ∷ seen) r)

insert_ids-eq-ok :
    (cs : List NewCommitment) (seen out : List CommitmentId)
    → (insert_ids cs seen ≡ ok out)
      ↔ (Apart seen (ids cs) × IsDistinct (ids cs) × (out ≡ push_ids cs seen))
unfolding insert_ids push_ids
insert_ids-eq-ok [] seen out = ground arith
insert_ids-eq-ok (c ∷ cs) seen out = ground (
  arith,
  insert_ids-eq-ok cs (c.commitment_id ∷ seen) out,
  Apart-cons c.commitment_id seen (ids cs),
)

Result-cases {ℓ} :
    {A : Type ℓ} (r : Domain A) → ((a : A) × (r ≡ ok a)) ⊎ ((e : DomainError) × (r ≡ err e))
Result-cases (ok a) = inl (a, refl)
Result-cases (err e) = inr (e, refl)

-- A decomposition has the shape that is asked for exactly when it has a child, its child ids differ
-- pairwise, the replacement terminal is one of them and not the target, and no child lists a
-- prerequisite twice.
pub decompose_shape :
    (target r : CommitmentId) (epoch : ClaimEpoch) (cs : List NewCommitment)
    → (validate_proposal_shape (decompose target epoch cs r) ≡ ok tt) ↔ (
        (is_empty cs ≡ false)
        × IsDistinct (ids cs)
        × (target ≢ r)
        × (contains (ids cs) r ≡ true)
        × DistinctChildren cs)
unfolding validate_proposal_shape contains
decompose_shape target r epoch cs = elim (Result-cases (insert_ids cs [])) [
  | inl (out, e) ↦ ground (
    arith,
    e,
    insert_ids-eq-ok cs [] out,
    contains-push_ids cs [] r,
    validate_child_prerequisites_iff cs,
  )
  | inr (x, e) ↦ ground (arith, e, insert_ids-eq-ok cs [] (push_ids cs []), Apart-nil (ids cs))
]
