-- ===== src/Store/Commitments/Children.antt =====
-- The rows that `sync_commitment_children` of sqlite.rs writes, and what is read back of them.
use resolve.Base.{
  ℕ, suc, ◌≡◌, refl, ap, ◌∙◌, Bool, true, false, List, [], ◌∷◌, ◌++◌, ok, arith, ◌=?◌, all, not,
  ℕ_discrete,
}
use mathlib.Core.List.{append-nil, append_assoc}
use resolve.Store.Sql.{delete, select_all, order_by}
use resolve.Base.Text.{Text, is_blank}
use resolve.Core.Types.{
  CommitmentId, Prerequisite, commitment, tethers_verification, human_decision, AcceptanceRef,
}
use resolve.Core.Ids.{try_new}
use resolve.Store.Tables.{Db, PrerequisiteRow, AcceptanceRow, text_eq, Text-discrete}
use resolve.Store.Sql.Numbered.{numbered, select_all-renumber, order_by-numbered}
use resolve.Store.Codec.{parse_id}
use resolve.Store.Tx.{bind-ok}
use resolve.Store.Guards.Issue.{statement}
use resolve.Store.Commitments.{
  decode_reference, prerequisite_row, decode_prerequisite, decode_prerequisites, decode_acceptance,
  query_prerequisites, query_acceptance_refs, insert_prerequisite, insert_prerequisites,
  insert_acceptance, insert_acceptance_refs,
}

-- The identifier that a prerequisite holds.
abbrev pub reference : Prerequisite → Text
reference (commitment i) = i.value
reference (tethers_verification r) = r.value
reference (human_decision r) = r.value

abbrev pub acceptance_row : CommitmentId → ℕ → AcceptanceRef → AcceptanceRow
acceptance_row commitment_id ordinal r = record {
  commitment_id = commitment_id.value;
  ordinal = ordinal;
  reference_id = r.value;
}

insert_prerequisite-row :
    (row : PrerequisiteRow) (db db' : Db)
    → statement (insert_prerequisite row) db ≡ ok (tt, db')
    → db' ≡ record db { commitment_prerequisites = db.commitment_prerequisites ++ row ∷ [] }
unfolding insert_prerequisite
insert_prerequisite-row row db db' e = ground arith

pub insert_prerequisites-rows :
    (id : CommitmentId) (n : ℕ) (ps : List Prerequisite) (db db' : Db)
    → insert_prerequisites id n ps db ≡ ok (tt, db')
    → db' ≡ record db {
      commitment_prerequisites = db.commitment_prerequisites ++ numbered (prerequisite_row id) n ps;
    }
unfolding insert_prerequisites
insert_prerequisites-rows id n [] db db' e =
    let nil = append-nil db.commitment_prerequisites in ground arith
insert_prerequisites-rows id n (p ∷ ps) db db' e =
    let (_, db₁, first, rest) =
      bind-ok (statement (insert_prerequisite (prerequisite_row id n p))) _ tt db db' e in
    let one = insert_prerequisite-row (prerequisite_row id n p) db db₁ first in
    insert_prerequisites-rows id (suc n) ps db₁ db' rest
    ∙ ap
        (λ (d : Db). record d {
          commitment_prerequisites =
              d.commitment_prerequisites ++ numbered (prerequisite_row id) (suc n) ps;
        })
        one
    ∙ ap (λ rs. record db { commitment_prerequisites = rs })
        (append_assoc db.commitment_prerequisites (prerequisite_row id n p ∷ [])
          (numbered (prerequisite_row id) (suc n) ps))

insert_acceptance-row :
    (row : AcceptanceRow) (db db' : Db)
    → statement (insert_acceptance row) db ≡ ok (tt, db')
    → db' ≡ record db { commitment_acceptance_refs = db.commitment_acceptance_refs ++ row ∷ [] }
unfolding insert_acceptance
insert_acceptance-row row db db' e = ground arith

pub insert_acceptance_refs-rows :
    (id : CommitmentId) (n : ℕ) (rs : List AcceptanceRef) (db db' : Db)
    → insert_acceptance_refs id n rs db ≡ ok (tt, db')
    → db' ≡ record db {
      commitment_acceptance_refs =
          db.commitment_acceptance_refs ++ numbered (acceptance_row id) n rs;
    }
unfolding insert_acceptance_refs
insert_acceptance_refs-rows id n [] db db' e =
    let nil = append-nil db.commitment_acceptance_refs in ground arith
insert_acceptance_refs-rows id n (r ∷ rs) db db' e =
    let (_, db₁, first, rest) =
      bind-ok (statement (insert_acceptance (acceptance_row id n r))) _ tt db db' e in
    let one = insert_acceptance-row (acceptance_row id n r) db db₁ first in
    insert_acceptance_refs-rows id (suc n) rs db₁ db' rest
    ∙ ap
        (λ (d : Db). record d {
          commitment_acceptance_refs =
              d.commitment_acceptance_refs ++ numbered (acceptance_row id) (suc n) rs;
        })
        one
    ∙ ap (λ xs. record db { commitment_acceptance_refs = xs })
        (append_assoc db.commitment_acceptance_refs (acceptance_row id n r ∷ [])
          (numbered (acceptance_row id) (suc n) rs))

decode_reference-same :
    (i : CommitmentId)
    → is_blank i.value ≡ false
    → decode_reference i.value i.value ≡ ok (commitment i)
unfolding decode_reference parse_id try_new
decode_reference-same i named = ground arith

prerequisite_row-key :
    (id : CommitmentId) (n : ℕ) (p : Prerequisite)
    → ((prerequisite_row id n p).commitment_id ≡ id.value) × ((prerequisite_row id n p).ordinal ≡ n)
prerequisite_row-key id n (commitment i) = (refl, refl)
prerequisite_row-key id n (tethers_verification r) = (refl, refl)
prerequisite_row-key id n (human_decision r) = (refl, refl)

decode_prerequisite-row :
    (id : CommitmentId) (n : ℕ) (p : Prerequisite)
    → is_blank (reference p) ≡ false
    → decode_prerequisite (prerequisite_row id n p) ≡ ok p
unfolding decode_prerequisite parse_id try_new Text-discrete ℕ_discrete
decode_prerequisite-row id n (commitment i) named = decode_reference-same i named
decode_prerequisite-row id n (tethers_verification r) named = ground arith
decode_prerequisite-row id n (human_decision r) named = ground arith

abbrev pub is_named : Prerequisite → Bool
is_named p = not (is_blank (reference p))

decode_prerequisites-numbered :
    (id : CommitmentId) (n : ℕ) (ps : List Prerequisite)
    → all is_named ps ≡ true
    → decode_prerequisites (numbered (prerequisite_row id) n ps) ≡ ok ps
unfolding decode_prerequisites
decode_prerequisites-numbered id n [] named = refl
decode_prerequisites-numbered id n (p ∷ ps) named =
    let ih = decode_prerequisites-numbered id (suc n) ps (ground arith) in
    let here = decode_prerequisite-row id n p (ground arith) in ground arith

decode_acceptance-numbered :
    (id : CommitmentId) (n : ℕ) (rs : List AcceptanceRef)
    → all (λ r. not (is_blank r.value)) rs ≡ true
    → decode_acceptance (numbered (acceptance_row id) n rs) ≡ ok rs
unfolding decode_acceptance parse_id try_new
decode_acceptance-numbered id n [] named = refl
decode_acceptance-numbered id n (r ∷ rs) named =
    let ih = decode_acceptance-numbered id (suc n) rs (ground arith) in ground arith

pub query_prerequisites-renumber :
    (id : CommitmentId) (ps : List Prerequisite) (rows : List PrerequisiteRow) (db : Db)
    → all is_named ps ≡ true
    → db.commitment_prerequisites
      ≡ delete (λ r. r.commitment_id =? id.value) rows ++ numbered (prerequisite_row id) 0 ps
    → query_prerequisites id db ≡ ok ps
unfolding query_prerequisites
query_prerequisites-renumber id ps rows db named same =
    let mine = λ (r : PrerequisiteRow). r.commitment_id =? id.value in
    let all_mine : (n : ℕ) (p : Prerequisite) → mine (prerequisite_row id n p) ≡ true =
      λ n p. let (own, _) = prerequisite_row-key id n p in ground arith in
    let at : (n : ℕ) (p : Prerequisite) → (prerequisite_row id n p).ordinal ≡ n =
      λ n p. (prerequisite_row-key id n p).1 in
    ap (λ rs. decode_prerequisites (order_by (λ r. r.ordinal) (select_all mine rs))) same
    ∙ ap (λ rs. decode_prerequisites (order_by (λ r. r.ordinal) rs))
        (select_all-renumber (prerequisite_row id) mine all_mine rows 0 ps)
    ∙ ap decode_prerequisites (order_by-numbered (prerequisite_row id) (λ r. r.ordinal) at 0 ps)
    ∙ decode_prerequisites-numbered id 0 ps named

pub query_acceptance_refs-renumber :
    (id : CommitmentId) (refs : List AcceptanceRef) (rows : List AcceptanceRow) (db : Db)
    → all (λ r. not (is_blank r.value)) refs ≡ true
    → db.commitment_acceptance_refs
      ≡ delete (λ r. r.commitment_id =? id.value) rows ++ numbered (acceptance_row id) 0 refs
    → query_acceptance_refs id db ≡ ok refs
unfolding query_acceptance_refs
query_acceptance_refs-renumber id refs rows db named same =
    let mine = λ (r : AcceptanceRow). r.commitment_id =? id.value in
    let all_mine : (n : ℕ) (p : AcceptanceRef) → mine (acceptance_row id n p) ≡ true =
      λ n p. ground arith in
    ap (λ rs. decode_acceptance (order_by (λ r. r.ordinal) (select_all mine rs))) same
    ∙ ap (λ rs. decode_acceptance (order_by (λ r. r.ordinal) rs))
        (select_all-renumber (acceptance_row id) mine all_mine rows 0 refs)
    ∙ ap decode_acceptance
        (order_by-numbered (acceptance_row id) (λ r. r.ordinal) (λ n p. refl) 0 refs)
    ∙ decode_acceptance-numbered id 0 refs named
