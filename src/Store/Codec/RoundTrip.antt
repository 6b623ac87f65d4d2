-- ===== src/Store/Codec/RoundTrip.antt =====
-- The column that holds the state of a commitment, written and read.
use resolve.Base.{◌≡◌, Bool, true, not, some, ok, arith, ◌↔◌}
use resolve.Base.Text.{is_blank}
use resolve.Core.Types.{
  CommitmentState, waiting, on_prerequisite, authority, on_human_decision, verification,
  uncertain_action,
}
use resolve.Core.Ids.{try_new}
use resolve.Store.Tables.{Json, json_value, StoredCommitmentState}
use resolve.Store.Codec.{
  stored_state, decode_commitment_state, state_into_domain, reason_into_domain, parse_id,
}

-- No identifier of the state is blank, which `try_new` guarantees.
abbrev pub is_named : CommitmentState → Bool
is_named (waiting (on_prerequisite i)) = not (is_blank i.value)
is_named (waiting (authority i)) = not (is_blank i.value)
is_named (waiting (on_human_decision i)) = not (is_blank i.value)
is_named (waiting (verification i)) = not (is_blank i.value)
is_named (waiting (uncertain_action i)) = not (is_blank i.value)
is_named _ = true

decode_of :
    (column : Json StoredCommitmentState) (state : CommitmentState)
    → decode_commitment_state column ≡ ok state
    → (json_value column ≡ some (stored_state state)) × (is_named state ≡ true)
unfolding decode_commitment_state state_into_domain reason_into_domain parse_id try_new
decode_of column state e = (ground arith, ground arith)

decode-stored :
    (column : Json StoredCommitmentState) (state : CommitmentState)
    → json_value column ≡ some (stored_state state)
    → is_named state ≡ true
    → decode_commitment_state column ≡ ok state
unfolding decode_commitment_state state_into_domain reason_into_domain parse_id try_new
decode-stored column state v n = ground arith

-- A column reads as a state exactly when its text, however it is spelled, stands for the stored form
-- of that state and no identifier of the state is blank.
pub decode_commitment_state_iff :
    (column : Json StoredCommitmentState) (state : CommitmentState)
    → (decode_commitment_state column ≡ ok state)
      ↔ ((json_value column ≡ some (stored_state state)) × (is_named state ≡ true))
decode_commitment_state_iff column state =
    (λ e. decode_of column state e, λ w. decode-stored column state w.0 w.1)
