-- ===== src/Core/Planning/Acyclic/Extends.antt =====
-- How a search changes the colours, and the loop over a list of nodes.
use resolve.Base.{◌≡◌, ◌≢◌, refl, ap, ◌⊎◌, true, List, [], ◌∷◌, some, arith}
use resolve.Base.Canonical.{contains}
use resolve.Core.Types.{CommitmentId}
use resolve.Core.Equality.{identifier_eq}
use resolve.Core.Planning.Acyclic.{Colours, grey, black, Search, done, cyclic, exhausted, each}

-- What a search that ends leaves: black stays black, and the grey nodes are the same.
pub record Extends (c c' : Colours) : Type 0 where
  pub keeps_black : (u : CommitmentId) → c u ≡ some black → c' u ≡ some black
  pub keeps_grey : (u : CommitmentId) → c u ≡ some grey → c' u ≡ some grey
  pub no_new_grey : (u : CommitmentId) → c' u ≡ some grey → c u ≡ some grey

pub Extends-refl : (c : Colours) → Extends c c
Extends-refl c = record { keeps_black = λ u h. h; keeps_grey = λ u h. h; no_new_grey = λ u h. h }

pub Extends-trans : {b c d : Colours} → Extends b c → Extends c d → Extends b d
Extends-trans p q = record {
  keeps_black = λ u h. q.keeps_black u (p.keeps_black u h);
  keeps_grey = λ u h. q.keeps_grey u (p.keeps_grey u h);
  no_new_grey = λ u h. p.no_new_grey u (q.no_new_grey u h);
}

pub done_injective : {c c' : Colours} → done c ≡ done c' → c ≡ c'
done_injective {c} h = ap (λ s. elim s [ done d ↦ d | cyclic ↦ c | exhausted ↦ c ]) h

pub done_ne_cyclic : {c : Colours} → done c ≢ cyclic
done_ne_cyclic h = cc

module _ (step : CommitmentId → Colours → Search) where
  pub each-nil : (c c' : Colours) → each step [] c ≡ done c' → c ≡ c'
  unfolding each
  each-nil c c' h = done_injective h

  pub each-cons :
      (n : CommitmentId) (ns : List CommitmentId) (c c' : Colours)
      → each step (n ∷ ns) c ≡ done c'
      → (c₁ : Colours) × (step n c ≡ done c₁) × (each step ns c₁ ≡ done c')
  unfolding each
  each-cons n ns c c' h = go (step n c) refl h
    where
      go :
          (s : Search)
          → step n c ≡ s
          → elim s [ done c₁ ↦ each step ns c₁ | cyclic ↦ cyclic | exhausted ↦ exhausted ] ≡ done c'
          → (c₁ : Colours) × (step n c ≡ done c₁) × (each step ns c₁ ≡ done c')
      go (done c₁) e h' = (c₁, e, h')
      go cyclic e h' = cc
      go exhausted e h' = cc

pub not_in_nil : (n : CommitmentId) → contains [] n ≢ true
unfolding contains
not_in_nil n h = cc

pub in_cons :
    (m n : CommitmentId) (ns : List CommitmentId)
    → contains (n ∷ ns) m ≡ true
    → (m ≡ n) ⊎ (contains ns m ≡ true)
unfolding contains
in_cons m n ns h = ground arith
