-- ===== src/Store/Sql/Ordered.antt =====
-- `ORDER BY` keeps the rows, whatever their order.
use resolve.Base.{◌≡◌, refl, Bool, List, [], ◌∷◌, arith}
use resolve.Base.Text.{Text}
use resolve.Store.Sql.{count, exists, insert_by_text, order_by_text}

module _ {A : Type 0} (test : A → Bool) (key : A → Text) where
  exists-insert :
      (r : A) (rs : List A) → exists test (insert_by_text key r rs) ≡ exists test (r ∷ rs)
  unfolding exists insert_by_text
  exists-insert r [] = refl
  exists-insert r (s ∷ ss) = let ih = exists-insert r ss in ground arith

  pub exists-order : (rs : List A) → exists test (order_by_text key rs) ≡ exists test rs
  unfolding exists order_by_text
  exists-order [] = refl
  exists-order (r ∷ rs) =
      let ih = exists-order rs in let here = exists-insert r (order_by_text key rs) in ground arith

  count-insert : (r : A) (rs : List A) → count test (insert_by_text key r rs) ≡ count test (r ∷ rs)
  unfolding count insert_by_text
  count-insert r [] = refl
  count-insert r (s ∷ ss) = let ih = count-insert r ss in ground arith

  pub count-order : (rs : List A) → count test (order_by_text key rs) ≡ count test rs
  unfolding count order_by_text
  count-order [] = refl
  count-order (r ∷ rs) =
      let ih = count-order rs in let here = count-insert r (order_by_text key rs) in ground arith
