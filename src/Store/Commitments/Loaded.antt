-- ===== src/Store/Commitments/Loaded.antt =====
-- A commitment that `insert_commitment` of sqlite.rs has stored, read back by `load_commitment`.
use resolve.Base.{
  ℕ, ◌≡◌, refl, ap, ◌∙◌, Bool, true, false, Option, some, none, ok, arith, ◌=?◌, all, not,
}
use mathlib.Core.Option
use resolve.Base.Int.{ℤ, pos}
use resolve.Base.Text.{is_blank}
use resolve.Core.Types.{CommitmentId, proposed, ClaimEpoch, commitment_kind}
use resolve.Core.Ids.{try_new}
use resolve.Core.Numbers.{claim_epoch_try_from_raw}
use resolve.Core.Events.{WorkEvent}
use resolve.Core.Commitment.{Commitment, restore}
use resolve.Store.Sql.{select}
use resolve.Store.Sql.Unique.{select-delete_self}
use resolve.Store.Tables.{Db, text_eq}
use resolve.Store.Codec.{
  to_sql, transpose, checked_i64, parse_id, positive_u64, decode_commitment_state,
  encode_commitment_state, state_into_domain,
}
use resolve.Store.Commitments.{
  insert_commitment, new_row, is_positive_or_null, query_prerequisites, query_acceptance_refs,
}
use resolve.Store.Commitments.Children.{
  is_named, query_prerequisites-renumber, query_acceptance_refs-renumber,
}
use resolve.Store.Commitments.Load.{
  CommitmentRecord, check_row, check_terminal, assemble, load_commitment_record, load_commitment,
  epoch_of,
}
use resolve.Store.Commitments.Saved.{IsStored, insert_commitment-IsStored}

abbrev pub parent_is_named : Option CommitmentId → Bool
parent_is_named none = true
parent_is_named (some parent) = not (is_blank parent.value)

-- No identifier of the commitment is blank, nor is its description, as their constructors demand.
pub record IsNamed (c : Commitment) : Type 0 where
  pub id : is_blank c.commitment_id.value ≡ false
  pub goal : is_blank c.goal_id.value ≡ false
  pub parent : parent_is_named c.parent_id ≡ true
  pub description : is_blank c.description ≡ false
  pub prerequisites : all is_named c.prerequisites ≡ true
  pub acceptance_refs : all (λ r. not (is_blank r.value)) c.acceptance_refs ≡ true

-- The record of a new commitment.
abbrev new_record : Commitment → CommitmentRecord
new_record c = record {
  commitment_id = c.commitment_id;
  goal_id = c.goal_id;
  parent_id = c.parent_id;
  description = c.description;
  state = proposed;
  prerequisites = c.prerequisites;
  acceptance_refs = c.acceptance_refs;
  claim = none;
  last_claim_epoch = c.last_claim_epoch;
  outstanding_action = none;
  replacement_terminal_id = none;
  state_version = pos 1;
}

last-loads :
    (epoch : Option ClaimEpoch) (last : Option ℤ)
    → transpose to_sql epoch ≡ ok last
    → is_positive_or_null last ≡ true
    → (transpose (λ v. positive_u64 v "last claim epoch") last ≡ ok epoch)
      × (transpose epoch_of epoch ≡ ok epoch)
unfolding to_sql positive_u64 checked_i64 claim_epoch_try_from_raw
last-loads none last e p = (ground arith, ground arith)
last-loads (some epoch) last e p = (ground arith, ground arith)

parent-loads :
    (parent : Option CommitmentId)
    → parent_is_named parent ≡ true
    → transpose
        (λ v. parse_id commitment_kind v "parent commitment")
        (Option.map (λ i. i.value) parent)
      ≡ ok parent
unfolding parse_id try_new
parent-loads none p = refl
parent-loads (some i) p = ground arith

assemble-new :
    (c : Commitment) (last : Option ℤ) (db : Db)
    → IsNamed c
    → c.outstanding_action ≡ none
    → query_prerequisites c.commitment_id db ≡ ok c.prerequisites
    → query_acceptance_refs c.commitment_id db ≡ ok c.acceptance_refs
    → assemble (new_row c last) proposed none c.last_claim_epoch db ≡ ok (new_record c)
unfolding assemble check_terminal parse_id try_new
assemble-new c last db n idle ps rs = let parent = parent-loads c.parent_id n.parent in ground arith

record-loads :
    (c : Commitment) (last : Option ℤ) (db db' : Db)
    → IsNamed c
    → transpose to_sql c.last_claim_epoch ≡ ok last
    → is_positive_or_null last ≡ true
    → c.state ≡ proposed
    → c.outstanding_action ≡ none
    → IsStored c (new_row c last) db db'
    → load_commitment_record c.commitment_id db' ≡ ok (new_record c)
unfolding load_commitment_record check_row decode_commitment_state state_into_domain
record-loads c last db db' n fits positive state idle s =
    let ps =
      query_prerequisites-renumber c.commitment_id c.prerequisites db.commitment_prerequisites db'
        n.prerequisites s.prerequisites in
    let rs =
      query_acceptance_refs-renumber c.commitment_id c.acceptance_refs db.commitment_acceptance_refs
        db' n.acceptance_refs s.acceptance_refs in
    let whole = assemble-new c last db' n idle ps rs in
    let (mark, _) = last-loads c.last_claim_epoch last fits positive in
    let unclaimed : select (λ r. r.commitment_id =? c.commitment_id.value) db'.claims ≡ none =
      ap (select (λ r. r.commitment_id =? c.commitment_id.value)) s.claims
      ∙ select-delete_self (λ r. r.commitment_id =? c.commitment_id.value) db.claims in
    let found = s.found in let encoded = ap encode_commitment_state state in ground arith

-- A new commitment whose identifiers and description are not blank is read back, once it is stored,
-- exactly as it was given, with its prerequisites and acceptance references in their order.
pub insert_commitment-load :
    (c : Commitment) (event : WorkEvent) (created_at : ℤ) (event_id : ℕ) (db db' : Db)
    → IsNamed c
    → insert_commitment c event created_at db ≡ ok (event_id, db')
    → load_commitment c.commitment_id db' ≡ ok c
unfolding load_commitment restore
insert_commitment-load c event created_at event_id db db' n e =
    let (last, fits, positive, state, claim, idle, stored) =
      insert_commitment-IsStored c event created_at event_id db db' e in
    let loaded = record-loads c last db db' n fits positive state idle stored in
    let (_, mark) = last-loads c.last_claim_epoch last fits positive in
    let described = n.description in ground arith
