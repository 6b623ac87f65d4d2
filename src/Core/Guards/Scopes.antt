-- ===== src/Core/Guards/Scopes.antt =====
-- The canonical form of a scope set.
use resolve.Base.{◌≡◌, sym, ap, ◌∙◌, ◌↔◌, List, ◌∷◌, ok, arith}
use resolve.Base.Canonical.{contains, canonicalize, contains-canonicalize}
use resolve.Base.Canonical.Ascending.{IsAscending, canonicalize-IsAscending}
use resolve.Base.Canonical.Ext.{SameMembers, canonicalize-ext}
use resolve.Core.Types.{ScopeKey}
use resolve.Core.Equality.{identifier_eq}
use resolve.Core.Guards.{ScopeSet, scope_set_try_new, identifier_ord}

-- A set is built from every list but the empty one, holds exactly the keys of the list, and is
-- strictly ascending, so no key stands in it twice.
pub scope_set_try_new_lem :
    (k : ScopeKey) (ks : List ScopeKey) (s : ScopeSet)
    → scope_set_try_new (k ∷ ks) ≡ ok s
    → IsAscending s.keys × ((a : ScopeKey) → contains s.keys a ≡ contains (k ∷ ks) a)
unfolding scope_set_try_new
scope_set_try_new_lem k ks s h =
    let e : canonicalize (k ∷ ks) ≡ s.keys = ground arith in
    (rw e at (canonicalize-IsAscending (k ∷ ks)), λ a. rw e at (contains-canonicalize (k ∷ ks) a))

-- Two requests lead to one and the same scope set exactly when they name the same keys, in whatever
-- order and however often.
pub scope_set_try_new-ext :
    (j k : ScopeKey) (js ks : List ScopeKey)
    → (scope_set_try_new (j ∷ js) ≡ scope_set_try_new (k ∷ ks)) ↔ SameMembers (j ∷ js) (k ∷ ks)
unfolding scope_set_try_new
scope_set_try_new-ext j k js ks = (
  λ h a.
      let e : canonicalize (j ∷ js) ≡ canonicalize (k ∷ ks) = ground arith in
      sym (contains-canonicalize (j ∷ js) a)
      ∙ ap (λ l. contains l a) e
      ∙ contains-canonicalize (k ∷ ks) a,
  λ same. ap (λ l. ok (record { keys = l })) (canonicalize-ext (j ∷ js) (k ∷ ks) same),
)
