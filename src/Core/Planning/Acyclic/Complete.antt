-- ===== src/Core/Planning/Acyclic/Complete.antt =====
-- A search that stops at a grey node has found a cycle.
use resolve.Base.{
  ℕ, zero, suc, ◌≡◌, refl, sym, subst, true, List, [], ◌∷◌, Option, some, none, arith, if_neg, ◌≟◌,
}
use resolve.Base.Canonical.{contains}
use resolve.Core.Types.{CommitmentId}
use resolve.Core.Equality.{identifier_eq}
use resolve.Core.Planning.Acyclic.{
  Graph, Colours, NodeColour, grey, black, paint, Search, done, cyclic, exhausted, each, blacken,
  visit_coloured, visit, IsEdge, Depends, direct, further, dependencies_of,
}
use resolve.Core.Planning.Acyclic.Extends.{Extends, Extends-refl, Extends-trans}
use resolve.Core.Planning.Acyclic.Sound.{Inv, Inv-grey, Visited, visit-Visited}

in_head : (n : CommitmentId) (ns : List CommitmentId) → contains (n ∷ ns) n ≡ true
unfolding contains
in_head n ns = ground arith

in_tail :
    (m n : CommitmentId) (ns : List CommitmentId)
    → contains ns m ≡ true
    → contains (n ∷ ns) m ≡ true
unfolding contains
in_tail m n ns h = ground arith

unblacken : (n : CommitmentId) (s : Search) → blacken n s ≡ cyclic → s ≡ cyclic
unblacken n (done c) h = cc
unblacken n cyclic h = refl
unblacken n exhausted h = cc

module _ (g : Graph) where
  abbrev pub Cycle : Type 0
  Cycle = (u : CommitmentId) × Depends g u u

  -- Every grey node depends on `n`: they lie on the path to it.
  abbrev pub GreyAbove : CommitmentId → Colours → Type 0
  GreyAbove n c = (u : CommitmentId) → c u ≡ some grey → Depends g u n

  module _ (step : CommitmentId → Colours → Search)
      (visits : (n : CommitmentId) (c c' : Colours)
        → step n c ≡ done c'
        → Inv g c
        → Visited g n c c')
      (P : CommitmentId → Colours → Type 0) (C : Type 0)
      (finds : (n : CommitmentId) (c : Colours) → step n c ≡ cyclic → Inv g c → P n c → C) where
    -- A loop that stops at a cycle does so in a step, at colours that extend the first ones.
    pub each-cyclic :
        (ns : List CommitmentId) (c : Colours)
        → each step ns c ≡ cyclic
        → Inv g c
        → ((n : CommitmentId) (d : Colours) → contains ns n ≡ true → Extends c d → P n d)
        → C
    unfolding each
    each-cyclic [] c h i at = cc
    each-cyclic (n ∷ ns) c h i at = go (step n c) refl h (each-cyclic ns)
      where
        go :
            (s : Search)
            → step n c ≡ s
            → elim s [ done c₁ ↦ each step ns c₁ | cyclic ↦ cyclic | exhausted ↦ exhausted ]
              ≡ cyclic
            → ((d : Colours)
                → each step ns d ≡ cyclic
                → Inv g d
                → ((m : CommitmentId) (x : Colours) → contains ns m ≡ true → Extends d x → P m x)
                → C)
            → C
        go (done d) e h' others =
            let v = visits n c d e i in
            others d h' v.inv
              λ m x inside ext. at m x (in_tail m n ns inside) (Extends-trans v.extends ext)
        go cyclic e h' others = finds n c e i (at n c (in_head n ns) (Extends-refl c))
        go exhausted e h' others = cc

  on_path :
      (n d : CommitmentId) (c c₁ : Colours)
      → GreyAbove n c
      → IsEdge g n d
      → Extends (paint n grey c) c₁
      → GreyAbove d c₁
  on_path n d c c₁ above e x u h = elim (u ≟ n) [
    | yes same ↦ direct (subst (λ m. IsEdge g m d) (sym same) e)
    | no other ↦ further (above u (rw (if_neg _ other) at (x.no_new_grey u h))) e
  ]

  coloured-cyclic :
      (deeper : CommitmentId → Colours → Search)
      (visits : (n : CommitmentId) (c c' : Colours)
        → deeper n c ≡ done c'
        → Inv g c
        → Visited g n c c')
      (finds : (n : CommitmentId) (c : Colours)
        → deeper n c ≡ cyclic
        → Inv g c
        → GreyAbove n c
        → Cycle)
      (n : CommitmentId) (c : Colours) (o : Option NodeColour)
      → c n ≡ o
      → visit_coloured g deeper n c o ≡ cyclic
      → Inv g c
      → GreyAbove n c
      → Cycle
  unfolding visit_coloured
  coloured-cyclic deeper visits finds n c (some grey) o h i above = (n, above n o)
  coloured-cyclic deeper visits finds n c (some black) o h i above = cc
  coloured-cyclic deeper visits finds n c none o h i above =
      each-cyclic deeper visits GreyAbove Cycle finds (dependencies_of g n) (paint n grey c)
        (unblacken n (each deeper (dependencies_of g n) (paint n grey c)) h) (Inv-grey g n c o i)
        λ m d inside x. on_path n m c d above inside x

  pub visit-cyclic :
      (fuel : ℕ) (n : CommitmentId) (c : Colours)
      → visit g fuel n c ≡ cyclic
      → Inv g c
      → GreyAbove n c
      → Cycle
  unfolding visit
  visit-cyclic zero n c h i above = cc
  visit-cyclic (suc fuel) n c h i above =
      coloured-cyclic (visit g fuel) (visit-Visited g fuel) (visit-cyclic fuel) n c (c n) refl h i
        above
