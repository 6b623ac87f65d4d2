-- ===== src/Store/Sql/Numbered.antt =====
-- Rows that are numbered by their place in a list, as the children of a row.
use resolve.Base.{
  ℕ, suc, ◌≤◌, ◌≡◌, refl, ap, ◌∙◌, Bool, true, List, [], ◌∷◌, ◌++◌, arith, Bool-cases, inl, inr,
}
use resolve.Store.Sql.{select_all, delete, order_by, insert_by}

module _ {A : Type 0} {B : Type 0} (row : ℕ → A → B) where
  abbrev pub numbered : ℕ → List A → List B
  numbered n [] = []
  numbered n (a ∷ xs) = row n a ∷ numbered (suc n) xs

  module _ (test : B → Bool) (hit : (n : ℕ) (a : A) → test (row n a) ≡ true) where
    select_all-numbered : (n : ℕ) (xs : List A) → select_all test (numbered n xs) ≡ numbered n xs
    unfolding select_all
    select_all-numbered n [] = refl
    select_all-numbered n (a ∷ xs) =
        let ih = select_all-numbered (suc n) xs in let here = hit n a in ground arith

    -- Where the rows that pass are deleted and the numbered ones added, those are all that pass.
    pub select_all-renumber :
        (rs : List B) (n : ℕ) (xs : List A)
        → select_all test (delete test rs ++ numbered n xs) ≡ numbered n xs
    unfolding select_all delete
    select_all-renumber [] n xs = select_all-numbered n xs
    select_all-renumber (r ∷ rs) n xs =
        let ih = select_all-renumber rs n xs in
        elim (Bool-cases (test r)) [ inl t ↦ ground arith | inr f ↦ ground arith ]

  module _ (key : B → ℕ) (at : (n : ℕ) (a : A) → key (row n a) ≡ n) where
    insert_by-numbered :
        (m n : ℕ) (a : A) (xs : List A)
        → m ≤ n
        → insert_by key (row m a) (numbered n xs) ≡ row m a ∷ numbered n xs
    unfolding insert_by
    insert_by-numbered m n a [] h = refl
    insert_by-numbered m n a (b ∷ bs) h = let here = at m a in let there = at n b in ground arith

    -- They are in the order of their numbers.
    pub order_by-numbered : (n : ℕ) (xs : List A) → order_by key (numbered n xs) ≡ numbered n xs
    unfolding order_by
    order_by-numbered n [] = refl
    order_by-numbered n (a ∷ xs) =
        ap (insert_by key (row n a)) (order_by-numbered (suc n) xs)
        ∙ insert_by-numbered n (suc n) a xs (omega arith)
