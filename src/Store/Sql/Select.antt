-- ===== src/Store/Sql/Select.antt =====
-- How a row is found among rows that a statement has changed.
use resolve.Base.{◌≡◌, Bool, true, false, List, [], ◌∷◌, ◌++◌, some, arith, Bool-cases, inl, inr}
use resolve.Store.Sql.{select, delete, exists, update}

module _ {A : Type 0} where
  pub select-delete :
      (test drop : A → Bool) (r : A) (rs : List A)
      → select test rs ≡ some r
      → drop r ≡ false
      → select test (delete drop rs) ≡ some r
  unfolding select delete
  select-delete test drop r [] s d = ground arith
  select-delete test drop r (q ∷ rs) s d = let ih = select-delete test drop r rs in ground arith

  -- A row that is found passes the test.
  pub select-test :
      (test : A → Bool) (r : A) (rs : List A) → select test rs ≡ some r → test r ≡ true
  unfolding select
  select-test test r [] s = ground arith
  select-test test r (q ∷ rs) s =
      let ih = select-test test r rs in
      elim (Bool-cases (test q)) [ inl t ↦ ground arith | inr n ↦ ground arith ]

  pub select-append_new :
      (test : A → Bool) (r : A) (rs : List A)
      → exists test rs ≡ false
      → test r ≡ true
      → select test (rs ++ r ∷ []) ≡ some r
  unfolding select exists
  select-append_new test r [] n t = ground arith
  select-append_new test r (q ∷ rs) n t = let ih = select-append_new test r rs in ground arith

  pub select-append :
      (test : A → Bool) (r : A) (rs ss : List A)
      → select test rs ≡ some r
      → select test (rs ++ ss) ≡ some r
  unfolding select
  select-append test r [] ss s = ground arith
  select-append test r (q ∷ rs) ss s = let ih = select-append test r rs ss in ground arith

  pub select-update :
      (test hit : A → Bool) (f : A → A) (r : A) (rs : List A)
      → ((q : A) → test (f q) ≡ test q)
      → select test rs ≡ some r
      → hit r ≡ true
      → select test (update hit f rs) ≡ some (f r)
  unfolding select update
  select-update test hit f r [] same s h = ground arith
  select-update test hit f r (q ∷ rs) same s h =
      let ih = select-update test hit f r rs same in
      let here = same q in
      elim (Bool-cases (test q)) [ inl t ↦ ground arith | inr n ↦ ground arith ]

  pub exists-update :
      (test hit test' : A → Bool) (f : A → A) (rs : List A)
      → ((q : A) → test q ≡ true → hit q ≡ true)
      → ((q : A) → test q ≡ true → test' (f q) ≡ true)
      → exists test rs ≡ true
      → exists test' (update hit f rs) ≡ true
  unfolding exists update
  exists-update test hit test' f [] h k e = ground arith
  exists-update test hit test' f (q ∷ rs) h k e =
      let ih = exists-update test hit test' f rs h k in
      let here = h q in
      let there = k q in elim (Bool-cases (test q)) [ inl t ↦ ground arith | inr n ↦ ground arith ]
