-- ===== src/Store/Tables.antt =====
-- The tables of schema.rs, column by column. A TEXT column holds a
-- text, an INTEGER column an integer; a column that holds JSON holds the value that the JSON stands
-- for, or the mark of a text that does not parse. A row meets the CHECK on its `state`.
use resolve.Base.{some, none, ℕ, List, Option, DecEq, ℕ_discrete}
use resolve.Base.Int.{ℤ}
use resolve.Base.Text.{Text}
use resolve.Core.Events.{WorkEvent}

pub data StoredWaitingReason : Type 0 where
  stored_prerequisite stored_authority stored_human_decision : Text → StoredWaitingReason
  stored_verification stored_uncertain_action stored_external : Text → StoredWaitingReason

pub data StoredCommitmentState : Type 0 where
  stored_proposed stored_ready stored_claimed stored_working : StoredCommitmentState
  stored_waiting : StoredWaitingReason → StoredCommitmentState
  stored_recovery_pending stored_completion_proposed stored_completed : StoredCommitmentState
  stored_cancelled stored_abandoned : StoredCommitmentState

pub data StoredTethersOutcome : Type 0 where
  stored_succeeded stored_failed stored_uncertain : Text → StoredTethersOutcome

-- The text of a JSON column: the text that `to_string` writes for a value, another text that
-- `from_str` reads as a value, or a text that it refuses.
pub data Json (A : Type 0) : Type 0 where
  json : A → Json A
  respelled : (other_text : Text) → A → Json A
  malformed : Json A

-- The value that `from_str` reads.
abbrev pub json_value : {A : Type 0} → Json A → Option A
json_value (json a) = some a
json_value (respelled text a) = some a
json_value malformed = none

pub record CommitmentRow : Type 0 where
  pub commitment_id : Text
  pub goal_id : Text
  pub parent_id : Option Text
  pub description : Text
  pub state_json : Json StoredCommitmentState
  pub outstanding_action : Option Text
  pub state_version : ℤ
  pub last_claim_epoch : Option ℤ
  pub replacement_terminal_id : Option Text

pub record ClaimRow : Type 0 where
  pub commitment_id : Text
  pub worker_id : Text
  pub claim_epoch : ℤ
  pub last_heartbeat : ℤ
  pub boot_generation : ℤ

pub data GuardStateColumn : Type 0 where
  issued_column admitted_column resolved_column uncertain_column invalidated_column :
      GuardStateColumn

pub record RawGuardColumns : Type 0 where
  pub guard_id : Text
  pub commitment_id : Text
  pub claim_epoch : ℤ
  pub boot_generation : ℤ
  pub state : GuardStateColumn
  pub action_ref : Option Text
  pub outcome_json : Option (Json StoredTethersOutcome)
  pub reservation_expires_at : Option ℤ
  pub state_version : ℤ
  pub preparation_digest : Option Text

pub record GuardScopeRow : Type 0 where
  pub guard_id : Text
  pub ordinal : ℕ
  pub scope_key : Text

pub data LockState : Type 0 where
  reserved held : LockState

pub record LockRow : Type 0 where
  pub scope_key : Text
  pub guard_id : Text
  pub commitment_id : Text
  pub lock_state : LockState
  pub action_ref : Option Text
  pub reservation_expires_at : Option ℤ

pub record EventRow : Type 0 where
  pub goal_id : Text
  pub event : WorkEvent
  pub created_at : ℤ

pub record GoalRow : Type 0 where
  pub goal_id : Text
  pub revision : ℤ
  pub description : Text
  pub state : Text
  pub created_at : ℤ
  pub state_version : ℤ

pub record GoalRevisionRow : Type 0 where
  pub goal_id : Text
  pub revision : ℤ
  pub description : Text
  pub state : Text
  pub created_at : ℤ

pub record PrerequisiteRow : Type 0 where
  pub commitment_id : Text
  pub ordinal : ℕ
  pub prerequisite_type : Text
  pub reference_id : Text
  pub prerequisite_commitment_id : Option Text

pub record AcceptanceRow : Type 0 where
  pub commitment_id : Text
  pub ordinal : ℕ
  pub reference_id : Text

pub record AttentionRow : Type 0 where
  pub attention_id : Text
  pub commitment_id : Option Text
  pub description : Text
  pub state : Text

-- The metadata value of `boot_generation`: its row is missing, its text is no integer, or it is one.
pub data BootColumn : Type 0 where
  no_boot_row not_an_integer : BootColumn
  boot_value : ℤ → BootColumn

-- The database.
pub record Db : Type 0 where
  pub boot_generation : BootColumn
  pub goals : List GoalRow
  pub goal_revisions : List GoalRevisionRow
  pub commitments : List CommitmentRow
  pub commitment_prerequisites : List PrerequisiteRow
  pub commitment_acceptance_refs : List AcceptanceRow
  pub claims : List ClaimRow
  pub attention_items : List AttentionRow
  pub execution_guards : List RawGuardColumns
  pub execution_guard_scopes : List GuardScopeRow
  pub scope_locks : List LockRow
  pub work_events : List EventRow

unfoldable pub Text-discrete : Discrete Text
Text-discrete = hlevel ℕ_discrete

unfoldable pub Int-discrete : Discrete ℤ
Int-discrete = hlevel ℕ_discrete

unfoldable pub GuardStateColumn-discrete : Discrete GuardStateColumn
GuardStateColumn-discrete = hlevel

unfoldable pub LockState-discrete : Discrete LockState
LockState-discrete = hlevel

instance abbrev pub text_eq : DecEq Text
text_eq = record { decide_eq = Text-discrete }

instance abbrev pub int_eq : DecEq ℤ
int_eq = record { decide_eq = Int-discrete }

instance abbrev pub guard_state_eq : DecEq GuardStateColumn
guard_state_eq = record { decide_eq = GuardStateColumn-discrete }

instance abbrev pub lock_state_eq : DecEq LockState
lock_state_eq = record { decide_eq = LockState-discrete }
