-- ===== src/Core/Goal.antt =====
-- `GoalSpec` and `AttentionItem` of domain.rs.
use resolve.Base.{◌+◌, ◌<◌, ◌≡◌, ◌↔◌, false, Option, ok, arith, ensure_that, ◌>>=◌, ◌>>◌, ◌≟◌}
use resolve.Base.Int.{u64_mod}
use resolve.Base.Text.{Text, is_blank}
use resolve.Core.Types.{
  GoalId, GoalRevision, GoalState, Timestamp, AttentionId, CommitmentId, AttentionState,
  open_attention,
}
use resolve.Core.Equality.{nat_eq}
use resolve.Core.Error.{Domain, invalid_goal_revision}
use resolve.Core.Ids.{nonempty_description}
use resolve.Core.Numbers.{next_revision}

pub record GoalSpec : Type 0 where
  pub goal_id : GoalId
  pub revision : GoalRevision
  pub description : Text
  pub state : GoalState
  pub created_at : Timestamp

unfoldable pub goal_new : GoalId → GoalRevision → Text → GoalState → Timestamp → Domain GoalSpec
unfolding nonempty_description
goal_new goal_id revision description state created_at = do
  description' ← nonempty_description description
  ok (record {
    goal_id = goal_id;
    revision = revision;
    description = description';
    state = state;
    created_at = created_at;
  })

-- The next append-only goal revision.
unfoldable pub revised : GoalSpec → GoalRevision → Text → Domain GoalSpec
unfolding nonempty_description next_revision
revised goal revision description = do
  expected ← next_revision goal.revision
  ensure_that (revision ≟ expected) (invalid_goal_revision expected revision)
  description' ← nonempty_description description
  ok (record goal { revision = revision; description = description' })

pub record AttentionItem : Type 0 where
  pub attention_id : AttentionId
  pub commitment_id : Option CommitmentId
  pub description : Text
  pub state : AttentionState

unfoldable pub attention_new : AttentionId → Option CommitmentId → Text → Domain AttentionItem
unfolding nonempty_description
attention_new attention_id commitment_id description = do
  description' ← nonempty_description description
  ok (record {
    attention_id = attention_id;
    commitment_id = commitment_id;
    description = description';
    state = open_attention;
  })

-- A revision is accepted exactly when it is the successor of the current one, fits `u64` and has a
-- description; it then changes the revision and the description and nothing else.
pub revised-eq-ok :
    (g g' : GoalSpec) (r : GoalRevision) (d : Text)
    → (revised g r d ≡ ok g') ↔ (
        (r ≡ g.revision + 1)
        × (r < u64_mod)
        × (is_blank d ≡ false)
        × (g' ≡ record g { revision = r; description = d }))
unfolding revised
revised-eq-ok g g' r d = ground arith
