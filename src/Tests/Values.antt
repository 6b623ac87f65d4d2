-- ===== src/Tests/Values.antt =====
-- Identifiers, digests and goal revisions.
use resolve.Base.{ℕ, ◌+◌, ◌<◌, ◌≡◌, ◌↔◌, List, ◌++◌, ok, true, false, all, length}
use resolve.Base.Int.{pos, u64_mod}
use resolve.Base.Text.{Text, text, is_blank, is_whitespace, bytes}
use resolve.Core.Types.{goal_kind, active}
use resolve.Core.Ids.{try_new, digest_try_new, is_digest_byte}
use resolve.Core.Ids.Laws.{try_new-eq-ok, digest_try_new-eq-ok}
use resolve.Core.Goal.{GoalSpec, revised, revised-eq-ok}
use resolve.Tests.Samples.{id}

try_new-eq-ok_example :
    (try_new goal_kind (text " goal") ≡ ok (id " goal"))
    ↔ ((all is_whitespace (text " goal") ≡ false) × (text " goal" ≡ text " goal"))
try_new-eq-ok_example = try_new-eq-ok goal_kind (text " goal") (id " goal")

abbrev sample_digest : Text
sample_digest = text "sha256:0123456789abcdef0123456789abcdef0123456789abcdef0123456789abcdef"

digest_try_new-eq-ok_example :
    (digest_try_new sample_digest ≡ ok (record { digest = sample_digest })) ↔ (
      (hex : List ℕ) × (bytes sample_digest ≡ text "sha256:" ++ hex)
      × (length hex ≡ 64)
      × (all is_digest_byte hex ≡ true))
digest_try_new-eq-ok_example = digest_try_new-eq-ok sample_digest

abbrev goal : GoalSpec
goal = record {
  goal_id = id "goal-1";
  revision = 1;
  description = text "original";
  state = active;
  created_at = pos 0;
}

abbrev revised_goal : GoalSpec
revised_goal = record goal { revision = 2; description = text "revised" }

revised-eq-ok_example : (revised goal 2 (text "revised") ≡ ok revised_goal) ↔ (
    (◌≡◌ {A = ℕ} 2 (1 + 1))
    × (2 < u64_mod)
    × (is_blank (text "revised") ≡ false)
    × (revised_goal ≡ record goal { revision = 2; description = text "revised" }))
revised-eq-ok_example = revised-eq-ok goal revised_goal 2 (text "revised")
