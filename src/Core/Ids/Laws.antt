-- ===== src/Core/Ids/Laws.antt =====
-- Which texts the constructors of identifiers accept.
use resolve.Base.{
  ℕ, ◌≡◌, refl, ◌↔◌, true, false, List, [], ◌∷◌, ◌++◌, ok, arith, length, all, drop, ◌==◌, ◌&&◌,
}
use resolve.Base.Text.{Text, text, is_blank_lem, is_whitespace, bytes}
use resolve.Core.Types.{IdKind, Identifier}
use resolve.Core.Ids.{try_new, starts_with, is_digest_byte, is_digest, digest_try_new}

-- An identifier is accepted exactly when some character of the text is no white space, and then
-- holds the text unchanged.
pub try_new-eq-ok :
    (k : IdKind) (t : Text) (i : Identifier k)
    → (try_new k t ≡ ok i) ↔ ((all is_whitespace t ≡ false) × (i.value ≡ t))
unfolding try_new
try_new-eq-ok k t i = ground (arith, is_blank_lem t)

starts_with-drop : (ps bs : List ℕ) → starts_with ps bs ≡ true → bs ≡ ps ++ drop (length ps) bs
starts_with-drop [] bs h = refl
starts_with-drop (p ∷ ps) [] h = ground arith
starts_with-drop (p ∷ ps) (b ∷ bs) h = ground (arith, starts_with-drop ps bs)

is_digest-append :
    (hex : List ℕ)
    → is_digest (text "sha256:" ++ hex) ≡ (length hex == 64 && all is_digest_byte hex)
unfolding is_digest
is_digest-append hex = ground arith

is_digest-prefix : (bs : List ℕ) → is_digest bs ≡ true → bs ≡ text "sha256:" ++ drop 7 bs
unfolding is_digest
is_digest-prefix bs h = starts_with-drop (text "sha256:") bs (ground arith)

is_digest_cases :
    (bs : List ℕ)
    → is_digest bs ≡ true
    → (hex : List ℕ) × (bs ≡ text "sha256:" ++ hex)
      × (length hex ≡ 64)
      × (all is_digest_byte hex ≡ true)
is_digest_cases bs h =
    let e = is_digest-prefix bs h in
    let digits = is_digest-append (drop 7 bs) in
    let test : is_digest (text "sha256:" ++ drop 7 bs) ≡ true = rw (← e) h in
    (drop 7 bs, e, ground arith, ground arith)

-- A preparation digest is accepted exactly when the bytes of the text are `sha256:` and then 64
-- lower-case hexadecimal digits.
pub digest_try_new-eq-ok :
    (t : Text)
    → (digest_try_new t ≡ ok (record { digest = t })) ↔ (
        (hex : List ℕ) × (bytes t ≡ text "sha256:" ++ hex)
        × (length hex ≡ 64)
        × (all is_digest_byte hex ≡ true))
unfolding digest_try_new
digest_try_new-eq-ok t = (
  λ h. is_digest_cases (bytes t) (ground arith),
  λ w. rw (w.1, is_digest-append w.0, w.3) (ground arith),
)
