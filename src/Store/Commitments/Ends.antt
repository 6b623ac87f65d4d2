-- ===== src/Store/Commitments/Ends.antt =====
-- `persist_commitment_change` of sqlite.rs ends, also where it completes a chain of composites.
use resolve.Base.{◌≡◌, Bool, true, false, [], ◌∷◌, ◌++◌, Option, some, none, ok, arith}
use resolve.Base.Int.{ℤ}
use resolve.Core.Types.{BootGeneration}
use resolve.Core.Events.{WorkEvent}
use resolve.Core.Commitment.{Commitment}
use resolve.Store.Tables.{Db}
use resolve.Store.Codec.{next_state_version, to_sql, transpose}
use resolve.Store.Tx.{append_event, bind-ok, try-ok, check-ok, current_boot_generation}
use resolve.Store.Descriptions.{validate_commitment_event}
use resolve.Store.Recovery.Cascade.{is_completed}
use resolve.Store.Recovery.Ends.{complete_composite_barrier_cascade-ends}
use resolve.Store.Commitments.{sync_commitment_children}
use resolve.Store.Commitments.Change.{
  persist_commitment_change, read_current, check_change, write_change, cascade_if, set_commitment,
}

cascade_if-ends :
    (completed : Bool) (c : Commitment) (created_at : ℤ) (o : Option (Unit {0})) (db db' : Db)
    → cascade_if completed c created_at db ≡ ok (o, db')
    → o ≡ some tt
unfolding cascade_if
cascade_if-ends true c created_at o db db' e =
    complete_composite_barrier_cascade-ends c.commitment_id created_at o db db' e
cascade_if-ends false c created_at o db db' e = ground arith

write_change-ends :
    (c : Commitment) (expected : ℤ) (event : WorkEvent) (created_at : ℤ) (boot : BootGeneration)
    (db db' : Db)
    → ¬ (write_change c expected event created_at boot db ≡ ok (none, db'))
unfolding write_change append_event
write_change-ends c expected event created_at boot db db' e =
    let (next, _, r1) = try-ok (next_state_version expected) _ none db db' e in
    let logged = record db {
      work_events =
          db.work_events
          ++ record { goal_id = c.goal_id.value; event = event; created_at = created_at } ∷ [];
    } in
    let (last, _, r2) = try-ok (transpose to_sql c.last_claim_epoch) _ none logged db' r1 in
    let (_, db₁, _, r3) =
      bind-ok (sync_commitment_children c boot) _ none (set_commitment c last expected next logged)
        db' r2 in
    let (done, db₂, p, r4) =
      bind-ok (cascade_if (is_completed c.state) c created_at) _ none db₁ db' r3 in
    let ended = cascade_if-ends (is_completed c.state) c created_at done db₁ db₂ p in ground arith

-- The persisting of a change never runs out of fuel in the cascade that a completed commitment sets
-- off.
pub persist_commitment_change-ends :
    (c : Commitment) (expected : ℤ) (event : WorkEvent) (created_at : ℤ) (db db' : Db)
    → ¬ (persist_commitment_change c expected event created_at db ≡ ok (none, db'))
unfolding persist_commitment_change
persist_commitment_change-ends c expected event created_at db db' e =
    let (_, _, r1) =
      try-ok (validate_commitment_event event c.commitment_id "commitment change") _ none db db'
        e in
    let (boot, _, r2) = check-ok current_boot_generation _ none db db' r1 in
    let (row, _, r3) = check-ok (read_current c) _ none db db' r2 in
    let (_, _, r4) = check-ok (check_change c expected event row) _ none db db' r3 in
    write_change-ends c expected event created_at boot db db' r4
