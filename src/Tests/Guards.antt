-- ===== src/Tests/Guards.antt =====
-- Scope sets and deadlines.
use resolve.Base.{ℕ, ◌+◌, ◌<◌, ◌≡◌, refl, ◌↔◌, [], ◌∷◌, ok, min, ℕ_discrete}
use resolve.Base.Int.{u64_mod}
use resolve.Base.Order.{text_lt}
use resolve.Base.Canonical.{contains, canonicalize}
use resolve.Base.Canonical.Ascending.{IsAscending}
use resolve.Base.Canonical.Ext.{SameMembers}
use resolve.Core.Types.{ScopeKey}
use resolve.Core.Equality.{Identifier-discrete, identifier_eq}
use resolve.Core.Guards.{scope_set_try_new, reservation_deadline, identifier_ord}
use resolve.Core.Guards.Scopes.{scope_set_try_new_lem, scope_set_try_new-ext}
use resolve.Core.Guards.Deadline.{reservation_deadline-eq-ok}
use resolve.Tests.Samples.{id}

abbrev a : ScopeKey
a = id "a"

abbrev z : ScopeKey
z = id "z"

canonical : scope_set_try_new (z ∷ a ∷ z ∷ []) ≡ ok (record { keys = a ∷ z ∷ [] })
unfolding scope_set_try_new canonicalize text_lt Identifier-discrete ℕ_discrete
canonical = refl

scope_set_try_new_lem_example :
    IsAscending (a ∷ z ∷ [])
    × ((k : ScopeKey) → contains (a ∷ z ∷ []) k ≡ contains (z ∷ a ∷ z ∷ []) k)
scope_set_try_new_lem_example =
    scope_set_try_new_lem z (a ∷ z ∷ []) (record { keys = a ∷ z ∷ [] }) canonical

scope_set_try_new-ext_example :
    (scope_set_try_new (z ∷ a ∷ []) ≡ scope_set_try_new (a ∷ z ∷ z ∷ []))
    ↔ SameMembers (z ∷ a ∷ []) (a ∷ z ∷ z ∷ [])
scope_set_try_new-ext_example = scope_set_try_new-ext z a (a ∷ []) (z ∷ z ∷ [])

reservation_deadline-eq-ok_example :
    (reservation_deadline 10 20 25 ≡ ok 25)
    ↔ ((10 < 25) × (10 + 20 < u64_mod) × (◌≡◌ {A = ℕ} 25 (min (10 + 20) 25)))
reservation_deadline-eq-ok_example = reservation_deadline-eq-ok 10 20 25 25
