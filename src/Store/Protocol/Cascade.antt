-- ===== src/Store/Protocol/Cascade.antt =====
-- The release of recovered work keeps each relation that admits its statements.
use resolve.Base.{ℕ, zero, suc, Bool, true, false, List, [], ◌∷◌, Option, some, none}
use resolve.Base.Int.{ℤ}
use resolve.Base.Text.{Text}
use resolve.Core.Types.{CommitmentId, CommitmentState}
use resolve.Store.Tables.{Db, CommitmentRow}
use resolve.Store.Recovery.Cascade.{
  Parent, check_child, parents_of, count_parent, complete_unless, complete_parent, complete_parents,
  cascade_loop, complete_composite_barrier_cascade,
}
use resolve.Store.Recovery.Release.{recover_without_action, release_by}
use resolve.Store.Protocol.Keeps.{
  Keeps, Allows, bind-Keeps, try-then-Keeps, check-then-Keeps, transactions,
}

module _ {R : Db → Db → Type 0} ⦃allows : Allows R⦄ where
  complete_unless-Keeps :
      (terminal : Bool) (child_id : CommitmentId) (created_at : ℤ) (parent : Parent)
      (state : CommitmentState) (pending : List CommitmentId)
      → Keeps R (complete_unless terminal child_id created_at parent state pending)
  unfolding complete_unless
  complete_unless-Keeps true child_id created_at parent state pending = search (transactions)
  complete_unless-Keeps false child_id created_at parent state pending =
      search (transactions, allows.change, allows.reclaim) depth 30

  complete_parent-Keeps :
      (child_id : CommitmentId) (created_at : ℤ) (parent : Parent) (pending : List CommitmentId)
      → Keeps R (complete_parent child_id created_at parent pending)
  unfolding complete_parent
  complete_parent-Keeps child_id created_at parent pending =
      search (transactions, complete_unless-Keeps) depth 20

  complete_parents-Keeps :
      (total : ℕ) (child_id : CommitmentId) (created_at : ℤ) (parents : List Parent) (processed : ℕ)
      (pending : List CommitmentId)
      → Keeps R (complete_parents total child_id created_at parents processed pending)
  unfolding complete_parents
  complete_parents-Keeps total child_id created_at [] processed pending = search (transactions)
  complete_parents-Keeps total child_id created_at (parent ∷ parents) processed pending =
      try-then-Keeps (count_parent total processed) _ (λ counted.
        bind-Keeps _ _ (complete_parent-Keeps child_id created_at parent pending)
          (λ pushed. complete_parents-Keeps total child_id created_at parents counted pushed))

  cascade_loop-Keeps :
      (fuel total : ℕ) (created_at : ℤ) (processed : ℕ) (pending : List CommitmentId)
      → Keeps R (cascade_loop fuel total created_at processed pending)
  unfolding cascade_loop
  cascade_loop-Keeps fuel total created_at processed [] = search (transactions)
  cascade_loop-Keeps zero total created_at processed (c ∷ pending) = search (transactions)
  cascade_loop-Keeps (suc fuel) total created_at processed (c ∷ pending) =
      check-then-Keeps (check_child c) _ (λ _. check-then-Keeps (parents_of c) _ (λ parents.
        bind-Keeps _ _ (complete_parents-Keeps total c created_at parents processed pending)
          (λ next. cascade_loop-Keeps fuel total created_at next.0 next.1)))

  complete_composite_barrier_cascade-Keeps :
      (completed_id : CommitmentId) (created_at : ℤ)
      → Keeps R (complete_composite_barrier_cascade completed_id created_at)
  unfolding complete_composite_barrier_cascade
  complete_composite_barrier_cascade-Keeps completed_id created_at =
      search (transactions, cascade_loop-Keeps)

  release_by-Keeps :
      (replacement : Option Text) (commitment_id : CommitmentId) (created_at : ℤ)
      (row : CommitmentRow)
      → Keeps R (release_by replacement commitment_id created_at row)
  unfolding release_by
  release_by-Keeps none commitment_id created_at row = search (transactions, allows.change) depth 20
  release_by-Keeps (some r) commitment_id created_at row =
      search (transactions, complete_composite_barrier_cascade-Keeps)

  pub recover_without_action-Keeps :
      (commitment_id : CommitmentId) (created_at : ℤ)
      → Keeps R (recover_without_action commitment_id created_at)
  unfolding recover_without_action
  recover_without_action-Keeps commitment_id created_at = search (transactions, release_by-Keeps)
