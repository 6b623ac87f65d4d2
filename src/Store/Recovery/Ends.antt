-- ===== src/Store/Recovery/Ends.antt =====
-- The cascade of composite barriers ends: its fuel is enough.
use resolve.Base.{
  ℕ, zero, suc, ◌+◌, ◌≤◌, ◌≡◌, Bool, true, false, List, [], ◌∷◌, Option, some, none, ok, arith,
  length,
}
use resolve.Base.Int.{ℤ}
use resolve.Core.Types.{CommitmentId, CommitmentState, is_terminal}
use resolve.Store.Codec.{decode_commitment_state}
use resolve.Base.Text.{Text}
use resolve.Store.Tables.{Db, CommitmentRow}
use resolve.Store.Tx.{bind-ok, try-ok, check-ok}
use resolve.Store.Recovery.Cascade.{
  Parent, check_child, parents_of, count_parent, check_kinship, complete_unless, complete_parent,
  complete_parents, cascade_loop, complete_composite_barrier_cascade,
}
use resolve.Store.Recovery.Release.{
  recover_without_action, read_released, check_releasable, release_by, check_replacement,
}

complete_unless-pushes :
    (terminal : Bool) (child_id : CommitmentId) (created_at : ℤ) (parent : Parent)
    (state : CommitmentState) (pending pushed : List CommitmentId) (db db' : Db)
    → complete_unless terminal child_id created_at parent state pending db ≡ ok (pushed, db')
    → length pushed ≤ suc (length pending)
unfolding complete_unless
complete_unless-pushes true child_id created_at parent state pending pushed db db' e = ground arith
complete_unless-pushes false child_id created_at parent state pending pushed db db' e = ground arith

complete_parent-pushes :
    (child_id : CommitmentId) (created_at : ℤ) (parent : Parent)
    (pending pushed : List CommitmentId) (db db' : Db)
    → complete_parent child_id created_at parent pending db ≡ ok (pushed, db')
    → length pushed ≤ suc (length pending)
unfolding complete_parent
complete_parent-pushes child_id created_at parent pending pushed db db' e =
    let (_, _, r1) = check-ok (check_kinship child_id parent) _ pushed db db' e in
    let (state, _, r2) =
      try-ok (decode_commitment_state parent.row.state_json) _ pushed db db' r1 in
    complete_unless-pushes (is_terminal state) child_id created_at parent state pending pushed db
      db' r2

count_parent-ok :
    (total processed n : ℕ)
    → count_parent total processed ≡ ok n
    → (n ≡ suc processed) × (n ≤ total)
unfolding count_parent
count_parent-ok total processed n e = (ground arith, ground arith)

-- Each push is counted, and the count stays within the total.
complete_parents-counts :
    (total : ℕ) (child_id : CommitmentId) (created_at : ℤ) (parents : List Parent) (processed : ℕ)
    (pending : List CommitmentId) (next : ℕ × List CommitmentId) (db db' : Db)
    → processed ≤ total
    → complete_parents total child_id created_at parents processed pending db ≡ ok (next, db')
    → (next.0 ≤ total) × (length next.1 + processed ≤ length pending + next.0)
unfolding complete_parents
complete_parents-counts total child_id created_at [] processed pending next db db' h e =
    (ground arith, ground arith)
complete_parents-counts total child_id created_at (parent ∷ parents) processed pending next db db' h
      e =
    let (counted, c, r1) = try-ok (count_parent total processed) _ next db db' e in
    let (is_suc, within) = count_parent-ok total processed counted c in
    let (pushed, db₁, p, r2) =
      bind-ok (complete_parent child_id created_at parent pending) _ next db db' r1 in
    let more = complete_parent-pushes child_id created_at parent pending pushed db db₁ p in
    let (bound, all) =
      complete_parents-counts total child_id created_at parents counted pushed next db₁ db' within
        r2 in
    (bound, omega arith)

cascade_loop-ends :
    (fuel total : ℕ) (created_at : ℤ) (processed : ℕ) (pending : List CommitmentId)
    (o : Option (Unit {0})) (db db' : Db)
    → processed ≤ total
    → length pending + total ≤ fuel + processed
    → cascade_loop fuel total created_at processed pending db ≡ ok (o, db')
    → o ≡ some tt
unfolding cascade_loop
cascade_loop-ends fuel total created_at processed [] o db db' h m e = ground arith
cascade_loop-ends zero total created_at processed (c ∷ pending) o db db' h m e =
    absurd (omega arith)
cascade_loop-ends (suc fuel) total created_at processed (c ∷ pending) o db db' h m e =
    let (_, _, r1) = check-ok (check_child c) _ o db db' e in
    let (parents, _, r2) = check-ok (parents_of c) _ o db db' r1 in
    let (next, db₁, p, r3) =
      bind-ok (complete_parents total c created_at parents processed pending) _ o db db' r2 in
    let (bound, all) =
      complete_parents-counts total c created_at parents processed pending next db db₁ h p in
    cascade_loop-ends fuel total created_at next.0 next.1 o db₁ db' bound (omega arith) r3

pub complete_composite_barrier_cascade-ends :
    (completed_id : CommitmentId) (created_at : ℤ) (o : Option (Unit {0})) (db db' : Db)
    → complete_composite_barrier_cascade completed_id created_at db ≡ ok (o, db')
    → o ≡ some tt
unfolding complete_composite_barrier_cascade
complete_composite_barrier_cascade-ends completed_id created_at o db db' e =
    cascade_loop-ends _ _ created_at 0 (completed_id ∷ []) o db db' (omega arith) (omega arith) e

release_by-ends :
    (replacement : Option Text) (commitment_id : CommitmentId) (created_at : ℤ)
    (row : CommitmentRow) (o : Option (Unit {0})) (db db' : Db)
    → release_by replacement commitment_id created_at row db ≡ ok (o, db')
    → o ≡ some tt
unfolding release_by
release_by-ends none commitment_id created_at row o db db' e = ground arith
release_by-ends (some r) commitment_id created_at row o db db' e =
    let (id, _, r1) = check-ok (check_replacement commitment_id r) _ o db db' e in
    complete_composite_barrier_cascade-ends id created_at o db db' r1

recover_without_action-some :
    (commitment_id : CommitmentId) (created_at : ℤ) (o : Option (Unit {0})) (db db' : Db)
    → recover_without_action commitment_id created_at db ≡ ok (o, db')
    → o ≡ some tt
unfolding recover_without_action
recover_without_action-some commitment_id created_at o db db' e =
    let (row, _, r1) = check-ok (read_released commitment_id) _ o db db' e in
    let (_, _, r2) = check-ok (check_releasable commitment_id row) _ o db db' r1 in
    release_by-ends row.replacement_terminal_id commitment_id created_at row o db db' r2

-- The recovery of a commitment ends, also where it completes a chain of composites: the fuel of the
-- cascade never runs out, whatever the commitments and their replacement terminals are.
pub recover_without_action-ends :
    (commitment_id : CommitmentId) (created_at : ℤ) (db db' : Db)
    → ¬ (recover_without_action commitment_id created_at db ≡ ok (none, db'))
recover_without_action-ends commitment_id created_at db db' e =
    let ended = recover_without_action-some commitment_id created_at none db db' e in ground arith
