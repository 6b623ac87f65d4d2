-- ===== src/Store/Sql/Unique.antt =====
-- Rows of which at most one passes a test, as the rows with a given primary key, among rows that a
-- statement has changed.
use resolve.Base.{
  ◌+◌, ◌≤◌, ◌≡◌, Bool, true, false, List, [], ◌∷◌, ◌++◌, some, none, arith, Bool-cases, inl, inr,
  if◌then◌else◌,
}
use resolve.Store.Sql.{select, delete, update, count, exists}

module _ {A : Type 0} (test : A → Bool) where
  pub count-delete-le :
      (drop : A → Bool) (rs : List A) → count test (delete drop rs) ≤ count test rs
  unfolding count delete
  count-delete-le drop [] = ground arith
  count-delete-le drop (q ∷ rs) = let ih = count-delete-le drop rs in ground arith

  select-absent : (rs : List A) → count test rs ≡ 0 → select test rs ≡ none
  unfolding count select
  select-absent [] e = ground arith
  select-absent (q ∷ rs) e = let ih = select-absent rs in ground arith

  -- The only row that passes the test is not found once it is deleted.
  pub select-delete_only :
      (drop : A → Bool) (r : A) (rs : List A)
      → count test rs ≤ 1
      → select test rs ≡ some r
      → drop r ≡ true
      → select test (delete drop rs) ≡ none
  unfolding count select delete
  select-delete_only drop r [] u s d = ground arith
  select-delete_only drop r (q ∷ rs) u s d =
      let ih = select-delete_only drop r rs in
      let gone = select-absent (delete drop rs) in
      let few = count-delete-le drop rs in
      elim (Bool-cases (test q)) [ inl t ↦ ground arith | inr n ↦ ground arith ]

  pub select-delete-none :
      (drop : A → Bool) (rs : List A) → select test rs ≡ none → select test (delete drop rs) ≡ none
  unfolding select delete
  select-delete-none drop [] s = ground arith
  select-delete-none drop (q ∷ rs) s = let ih = select-delete-none drop rs in ground arith

  -- A statement that keeps the test.
  module _ (hit : A → Bool) (f : A → A) (same : (q : A) → test (f q) ≡ test q) where
    pub count-update : (rs : List A) → count test (update hit f rs) ≡ count test rs
    unfolding count update
    count-update [] = ground arith
    count-update (q ∷ rs) = let ih = count-update rs in let here = same q in ground arith

    pub select-update-none :
        (rs : List A) → select test rs ≡ none → select test (update hit f rs) ≡ none
    unfolding select update
    select-update-none [] s = ground arith
    select-update-none (q ∷ rs) s =
        let ih = select-update-none rs in let here = same q in ground arith

    pub select-update-some :
        (r : A) (rs : List A)
        → select test rs ≡ some r
        → select test (update hit f rs) ≡ some (if hit r then f r else r)
    unfolding select update
    select-update-some r [] s = ground arith
    select-update-some r (q ∷ rs) s =
        let ih = select-update-some r rs in
        let here = same q in
        elim (Bool-cases (test q)) [ inl t ↦ ground arith | inr n ↦ ground arith ]

  pub count-append :
      (r : A) (rs : List A) → count test (rs ++ r ∷ []) ≡ count test rs + (if test r then 1 else 0)
  unfolding count
  count-append r [] = ground arith
  count-append r (q ∷ rs) = let ih = count-append r rs in ground arith

  pub count-absent : (rs : List A) → exists test rs ≡ false → count test rs ≡ 0
  unfolding count exists
  count-absent [] e = ground arith
  count-absent (q ∷ rs) e = let ih = count-absent rs in ground arith

  pub select-append_other :
      (r : A) (rs : List A) → test r ≡ false → select test (rs ++ r ∷ []) ≡ select test rs
  unfolding select
  select-append_other r [] t = ground arith
  select-append_other r (q ∷ rs) t = let ih = select-append_other r rs in ground arith

  pub select-exists : (rs : List A) → exists test rs ≡ false → select test rs ≡ none
  select-exists rs e = select-absent rs (count-absent rs e)

  -- No row that passes is left when those that pass are deleted.
  pub select-delete_self : (rs : List A) → select test (delete test rs) ≡ none
  unfolding select delete
  select-delete_self [] = ground arith
  select-delete_self (q ∷ rs) = let ih = select-delete_self rs in ground arith
