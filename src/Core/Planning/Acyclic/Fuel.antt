-- ===== src/Core/Planning/Acyclic/Fuel.antt =====
-- The number of entries of the graph bounds the depth of the search.
use resolve.Base.{
  ℕ, zero, suc, ◌+◌, ◌≤◌, ◌<◌, ◌≡◌, ◌≢◌, refl, ap, ◌⊎◌, inl, inr, true, false, List, [], ◌∷◌,
  Option, some, none, arith, length, Bool-cases,
}
use resolve.Base.Canonical.{contains}
use resolve.Core.Types.{CommitmentId}
use resolve.Core.Equality.{identifier_eq}
use resolve.Core.Planning.Acyclic.{
  Graph, Colours, NodeColour, grey, black, paint, Search, done, cyclic, exhausted, each, blacken,
  visit_coloured, visit, node_keys, dependencies_of,
}
use resolve.Core.Planning.Acyclic.Extends.{Extends}
use resolve.Core.Planning.Acyclic.Sound.{Inv, Inv-grey, Visited, visit-Visited}

-- Uncoloured nodes of a list.
pub white : List CommitmentId → Colours → ℕ
white [] c = 0
white (k ∷ ks) c = (elim (c k) [ none ↦ 1 | some _ ↦ 0 ]) + white ks c

pub white-le-length : (g : Graph) (c : Colours) → white (node_keys g) c ≤ length g
unfolding white
white-le-length [] c = omega arith
white-le-length ((k, ds) ∷ g) c = ground (arith, white-le-length g c)

pub NodeColour-cases : (o : Option NodeColour) → (o ≡ none) ⊎ ((o ≡ some grey) ⊎ (o ≡ some black))
NodeColour-cases o = ground arith

white_mono : (ks : List CommitmentId) (c d : Colours) → Extends c d → white ks d ≤ white ks c
unfolding white
white_mono [] c d x = omega arith
white_mono (k ∷ ks) c d x =
    ground (arith, white_mono ks c d x, NodeColour-cases (c k), x.keeps_black k, x.keeps_grey k)

white-paint_le :
    (ks : List CommitmentId) (n : CommitmentId) (c : Colours)
    → white ks (paint n grey c) ≤ white ks c
unfolding white
white-paint_le [] n c = omega arith
white-paint_le (k ∷ ks) n c = ground (arith, white-paint_le ks n c)

white-paint :
    (ks : List CommitmentId) (n : CommitmentId) (c : Colours)
    → contains ks n ≡ true
    → c n ≡ none
    → white ks (paint n grey c) < white ks c
unfolding white contains
white-paint [] n c h fresh = cc
white-paint (k ∷ ks) n c h fresh =
    ground (arith, white-paint_le ks n c, white-paint ks n c, ap c {x = k} {y = n})

pub no_dependencies :
    (g : Graph) (n : CommitmentId) → contains (node_keys g) n ≡ false → dependencies_of g n ≡ []
unfolding contains dependencies_of
no_dependencies [] n h = refl
no_dependencies ((k, ds) ∷ g) n h = ground (arith, no_dependencies g n)

blacken-exhausted : (n : CommitmentId) (s : Search) → s ≢ exhausted → blacken n s ≢ exhausted
blacken-exhausted n (done c) h e = cc
blacken-exhausted n cyclic h e = cc
blacken-exhausted n exhausted h e = h refl

each_nil_ends : (step : CommitmentId → Colours → Search) (c : Colours) → each step [] c ≢ exhausted
unfolding each
each_nil_ends step c h = cc

module _ (g : Graph) where
  abbrev pub whites : Colours → ℕ
  whites = white (node_keys g)

  module _ (step : CommitmentId → Colours → Search)
      (visits : (n : CommitmentId) (c c' : Colours)
        → step n c ≡ done c'
        → Inv g c
        → Visited g n c c')
      (bound : ℕ)
      (ends : (n : CommitmentId) (c : Colours)
        → Inv g c
        → whites c < bound
        → step n c ≢ exhausted) where
    pub each-ends :
        (ns : List CommitmentId) (c : Colours)
        → Inv g c
        → whites c < bound
        → each step ns c ≢ exhausted
    unfolding each
    each-ends [] c i enough h = cc
    each-ends (n ∷ ns) c i enough h = go (step n c) refl (each-ends ns) h
      where
        go :
            (s : Search)
            → step n c ≡ s
            → ((d : Colours) → Inv g d → whites d < bound → each step ns d ≢ exhausted)
            → elim s [ done c₁ ↦ each step ns c₁ | cyclic ↦ cyclic | exhausted ↦ exhausted ]
              ≢ exhausted
        go (done d) e others h' =
            let v = visits n c d e i in
            others d v.inv (omega (arith, white_mono (node_keys g) c d v.extends)) h'
        go cyclic e others h' = cc
        go exhausted e others h' = ends n c i enough e

  deeper-ends :
      (fuel : ℕ)
      → ((n : CommitmentId) (c : Colours)
          → Inv g c
          → whites c < fuel
          → visit g fuel n c ≢ exhausted)
      → (n : CommitmentId) (c : Colours) → c n ≡ none
      → Inv g c
      → whites c < suc fuel
      → each (visit g fuel) (dependencies_of g n) (paint n grey c) ≢ exhausted
  deeper-ends fuel ends n c fresh i enough = elim (Bool-cases (contains (node_keys g) n)) [
    | inl key ↦
        each-ends (visit g fuel) (visit-Visited g fuel) fuel ends (dependencies_of g n)
          (paint n grey c) (Inv-grey g n c fresh i)
          (omega (arith, white-paint (node_keys g) n c key fresh))
    | inr leaf ↦ rw (no_dependencies g n leaf) (each_nil_ends (visit g fuel) (paint n grey c))
  ]

  -- A visit whose fuel exceeds the number of uncoloured keys does not run out of it.
  pub visit-ends :
      (fuel : ℕ) (n : CommitmentId) (c : Colours)
      → Inv g c
      → whites c < fuel
      → visit g fuel n c ≢ exhausted
  unfolding visit visit_coloured
  visit-ends zero n c i enough = absurd (omega arith)
  visit-ends (suc fuel) n c i enough = elim (NodeColour-cases (c n)) [
    | inl fresh ↦
        rw (fresh, visit_coloured)
          (blacken-exhausted n (each (visit g fuel) (dependencies_of g n) (paint n grey c))
            (deeper-ends fuel (visit-ends fuel) n c fresh i enough))
    | inr (inl e) ↦ rw (e, visit_coloured) (λ h. cc)
    | inr (inr e) ↦ rw (e, visit_coloured) (λ h. cc)
  ]
