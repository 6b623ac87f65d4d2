-- ===== src/Core/Planning/Acyclic/Sound.antt =====
-- Black nodes lie on no cycle.
use resolve.Base.{
  ℕ, zero, suc, ◌≡◌, ◌≢◌, refl, ap, subst, inl, inr, true, List, [], ◌∷◌, Option, some, none, arith,
  if_neg, ◌≟◌,
}
use resolve.Base.Canonical.{contains}
use resolve.Core.Types.{CommitmentId}
use resolve.Core.Equality.{identifier_eq}
use resolve.Core.Planning.Acyclic.{
  Graph, Colours, NodeColour, grey, black, paint, Search, done, cyclic, exhausted, each, blacken,
  visit_coloured, visit, IsEdge, Depends, direct, further, dependencies_of,
}
use resolve.Core.Planning.Acyclic.Extends.{
  Extends, Extends-refl, Extends-trans, done_injective, each-nil, each-cons, not_in_nil, in_cons,
}

module _ (g : Graph) where
  pub record Inv (c : Colours) : Type 0 where
    pub closed : (u v : CommitmentId) → c u ≡ some black → IsEdge g u v → c v ≡ some black
    pub clear : (u : CommitmentId) → c u ≡ some black → ¬ Depends g u u

  -- What a visit of `n` from `c` to `c'` establishes.
  pub record Visited (n : CommitmentId) (c c' : Colours) : Type 0 where
    pub inv : Inv c'
    pub extends : Extends c c'
    pub blackened : c' n ≡ some black

  pub record VisitedAll (ns : List CommitmentId) (c c' : Colours) : Type 0 where
    pub inv : Inv c'
    pub extends : Extends c c'
    pub blackened : (n : CommitmentId) → contains ns n ≡ true → c' n ≡ some black

  pub each-VisitedAll :
      (step : CommitmentId → Colours → Search)
      → ((n : CommitmentId) (c c' : Colours) → step n c ≡ done c' → Inv c → Visited n c c')
      → (ns : List CommitmentId) (c c' : Colours) → each step ns c ≡ done c'
      → Inv c
      → VisitedAll ns c c'
  each-VisitedAll step visits [] c c' h i =
      subst (VisitedAll [] c) (each-nil step c c' h)
        (record { inv = i; extends = Extends-refl c; blackened = λ n m. absurd (not_in_nil n m) })
  each-VisitedAll step visits (n ∷ ns) c c' h i =
      let (c₁, first, others) = each-cons step n ns c c' h in
      let v = visits n c c₁ first i in
      let vs = each-VisitedAll step visits ns c₁ c' others v.inv in
      record {
        inv = vs.inv;
        extends = Extends-trans v.extends vs.extends;
        blackened = λ m inside. elim (in_cons m n ns inside) [
          | inl e ↦ rw e (vs.extends.keeps_black n v.blackened)
          | inr rest ↦ vs.blackened m rest
        ];
      }

  black_dependencies :
      {u v : CommitmentId} {c : Colours}
      → Inv c
      → ((w : CommitmentId) → IsEdge g u w → c w ≡ some black)
      → Depends g u v
      → c v ≡ some black
  black_dependencies i h (direct {v = w} e) = h w e
  black_dependencies i h (further {v = w} {w = x} p e) = i.closed w x (black_dependencies i h p) e

  -- A grey node whose dependencies are black can be painted black.
  Inv-paint :
      (n : CommitmentId) (c : Colours)
      → c n ≢ some black
      → Inv c
      → ((w : CommitmentId) → IsEdge g n w → c w ≡ some black)
      → Inv (paint n black c)
  Inv-paint n c fresh i h = record {
    closed = λ u v b e. closed' u v b e (u ≟ n);
    clear = λ u b p. clear' u b p (u ≟ n);
  }
    where
      to_black : (v : CommitmentId) → c v ≡ some black → paint n black c v ≡ some black
      to_black v b = ground arith

      closed' :
          (u v : CommitmentId)
          → paint n black c u ≡ some black
          → IsEdge g u v
          → Dec (u ≡ n)
          → paint n black c v ≡ some black
      closed' u v b e (yes same) = to_black v (h v (subst (λ x. IsEdge g x v) same e))
      closed' u v b e (no other) = to_black v (i.closed u v (rw (if_neg _ other) at b) e)

      clear' : (u : CommitmentId) → paint n black c u ≡ some black → Depends g u u → Dec (u ≡ n) → ⊥
      clear' u b p (yes same) = fresh (black_dependencies i h (subst (λ x. Depends g x x) same p))
      clear' u b p (no other) = i.clear u (rw (if_neg _ other) at b) p

  pub Inv-grey : (n : CommitmentId) (c : Colours) → c n ≡ none → Inv c → Inv (paint n grey c)
  Inv-grey n c fresh i = record {
    closed = λ u v b e. not_repainted v (i.closed u v (was_black u b) e);
    clear = λ u b p. i.clear u (was_black u b) p;
  }
    where
      was_black : (u : CommitmentId) → paint n grey c u ≡ some black → c u ≡ some black
      was_black u b = ground arith

      not_repainted : (v : CommitmentId) → c v ≡ some black → paint n grey c v ≡ some black
      not_repainted v b = elim (v ≟ n) [
        | yes same ↦ absurd (ground (arith, ap c same))
        | no other ↦ rw (if_neg _ other) b
      ]

  -- From `c`, with `n` painted grey, then extended, and `n` painted black.
  Extends-paint :
      (n : CommitmentId) (c d : Colours)
      → c n ≡ none
      → Extends (paint n grey c) d
      → Extends c (paint n black d)
  Extends-paint n c d fresh x = record {
    keeps_black = λ u h. ground (arith, x.keeps_black u, ap c {x = u} {y = n});
    keeps_grey = λ u h. ground (arith, x.keeps_grey u, ap c {x = u} {y = n});
    no_new_grey = λ u h. ground (arith, x.no_new_grey u);
  }

  module _ (deeper : CommitmentId → Colours → Search)
      (visits : (n : CommitmentId) (c c' : Colours)
        → deeper n c ≡ done c'
        → Inv c
        → Visited n c c') where
    fresh-Visited :
        (n : CommitmentId) (c d : Colours)
        → c n ≡ none
        → each deeper (dependencies_of g n) (paint n grey c) ≡ done d
        → Inv c
        → Visited n c (paint n black d)
    fresh-Visited n c d fresh e i =
        let vs =
          each-VisitedAll deeper visits (dependencies_of g n) (paint n grey c) d e
            (Inv-grey n c fresh i) in
        let still_grey : d n ≡ some grey = vs.extends.keeps_grey n (ground arith) in
        record {
          inv = Inv-paint n d (λ b. ground arith) vs.inv vs.blackened;
          extends = Extends-paint n c d fresh vs.extends;
          blackened = ground arith;
        }

    pub coloured-Visited :
        (n : CommitmentId) (c c' : Colours) (o : Option NodeColour)
        → c n ≡ o
        → visit_coloured g deeper n c o ≡ done c'
        → Inv c
        → Visited n c c'
    unfolding visit_coloured
    coloured-Visited n c c' (some grey) o h i = cc
    coloured-Visited n c c' (some black) o h i =
        subst (Visited n c) (done_injective h)
          (record { inv = i; extends = Extends-refl c; blackened = o })
    coloured-Visited n c c' none o h i =
        go (each deeper (dependencies_of g n) (paint n grey c)) refl h
      where
        go :
            (s : Search)
            → each deeper (dependencies_of g n) (paint n grey c) ≡ s
            → blacken n s ≡ done c'
            → Visited n c c'
        go (done d) e h' = subst (Visited n c) (done_injective h') (fresh-Visited n c d o e i)
        go cyclic e h' = cc
        go exhausted e h' = cc

  -- A visit that ends well leaves every node that it met black, and off all cycles.
  pub visit-Visited :
      (fuel : ℕ) (n : CommitmentId) (c c' : Colours)
      → visit g fuel n c ≡ done c'
      → Inv c
      → Visited n c c'
  unfolding visit
  visit-Visited zero n c c' h i = cc
  visit-Visited (suc fuel) n c c' h i =
      coloured-Visited (visit g fuel) (visit-Visited fuel) n c c' (c n) refl h i
