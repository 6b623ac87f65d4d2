-- ===== src/Core/Ids.antt =====
-- The checked constructors of the identifiers (domain.rs, guards.rs).
pub mod Laws
use resolve.Base.{
  ℕ, Bool, true, false, ◌&&◌, ◌||◌, List, [], ◌∷◌, String, Result, ok, err, if◌then◌else◌, ◌==◌,
  leb, length, all, drop,
}
use resolve.Base.Text.{Text, text, is_blank, bytes}
use resolve.Core.Types.{
  IdKind, Identifier, TethersPreparationDigest, goal_kind, commitment_kind, worker_kind,
  action_kind, contract_kind, human_decision_kind, acceptance_kind, attention_kind, guard_kind,
  scope_kind,
}
use resolve.Core.Error.{DomainError, Domain, invalid_identifier, empty_description}

-- The second argument of `string_id!`.
abbrev pub kind_name : IdKind → String
kind_name goal_kind = "goal"
kind_name commitment_kind = "commitment"
kind_name worker_kind = "worker"
kind_name action_kind = "Tethers action"
kind_name contract_kind = "Tethers contract"
kind_name human_decision_kind = "human decision"
kind_name acceptance_kind = "acceptance"
kind_name attention_kind = "attention"
kind_name guard_kind = "guard"
kind_name scope_kind = "scope"

unfoldable pub try_new : (k : IdKind) → Text → Domain (Identifier k)
unfolding is_blank
try_new k value =
    if is_blank value then err (invalid_identifier (kind_name k)) else ok (record { value = value })

-- `value.starts_with(prefix)` on bytes
abbrev pub starts_with : List ℕ → List ℕ → Bool
starts_with [] bs = true
starts_with (p ∷ ps) [] = false
starts_with (p ∷ ps) (b ∷ bs) = p == b && starts_with ps bs

abbrev pub is_digest_byte : ℕ → Bool
is_digest_byte b = (leb b'0' b && leb b b'9') || (leb b'a' b && leb b b'f')

unfoldable pub is_digest : List ℕ → Bool
is_digest value =
    length value == 71 && starts_with (text "sha256:") value && all is_digest_byte (drop 7 value)

unfoldable pub digest_try_new : Text → Domain TethersPreparationDigest
digest_try_new value =
    if is_digest (bytes value)
    then ok (record { digest = value })
    else err (invalid_identifier "Tethers preparation digest")

unfoldable pub nonempty_description : Text → Domain Text
unfolding is_blank
nonempty_description description =
    if is_blank description then err empty_description else ok description
