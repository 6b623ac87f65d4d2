-- ===== src/Base/Text.antt =====
-- Rust's `String` as the list of its code points, with `str::trim` and the UTF-8 bytes.
use Prim.Native.Nat.{ℕ, ◌+◌, ◌/◌, ◌%◌}
use Prim.Native.Char.{code}
use Prim.Native.String.{String}
use mathlib.Core.Path.{◌≡◌, refl, ◌∙◌}
use mathlib.Core.Bool.{Bool, false, ◌&&◌, ◌||◌}
use mathlib.Core.List.{List, [], ◌∷◌, ◌++◌, reverse, reverse-cons}
use native.Mathlib.Omega.{arith}
use resolve.Base.Tests.{ltb, leb, ◌==◌, if◌then◌else◌}
use resolve.Base.Lists.{is_empty, all, all-reverse}

abbrev pub Text : Type 0
Text = List ℕ

-- A literal of the source.
abbrev pub text : String → Text
text String.[] = []
text (String.◌∷◌ c s) = code c ∷ text s

-- The code points with Unicode's property White_Space.
pub is_whitespace : ℕ → Bool
is_whitespace c =
    (leb 9 c && leb c 13)
    || c == 32
    || c == 0x85
    || c == 0xA0
    || c == 0x1680
    || (leb 0x2000 c && leb c 0x200A)
    || c == 0x2028
    || c == 0x2029
    || c == 0x202F
    || c == 0x205F
    || c == 0x3000

pub trim_start : Text → Text
trim_start [] = []
trim_start (c ∷ t) = if is_whitespace c then trim_start t else c ∷ t

pub trim_end : Text → Text
unfolding trim_start
trim_end t = reverse (trim_start (reverse t))

pub trim : Text → Text
unfolding trim_start trim_end
trim t = trim_end (trim_start t)

-- `value.trim().is_empty()`
unfoldable pub is_blank : Text → Bool
unfolding trim is_whitespace
is_blank t = is_empty (trim t)

all-trim_start : (t : Text) → all is_whitespace (trim_start t) ≡ all is_whitespace t
unfolding trim_start
all-trim_start [] = refl
all-trim_start (c ∷ t) = ground (arith, all-trim_start t)

is_empty-trim_start : (t : Text) → is_empty (trim_start t) ≡ all is_whitespace t
unfolding trim_start
is_empty-trim_start [] = refl
is_empty-trim_start (c ∷ t) = ground (arith, is_empty-trim_start t)

is_empty-snoc : (t : Text) (c : ℕ) → is_empty (t ++ c ∷ []) ≡ false
is_empty-snoc [] c = refl
is_empty-snoc (d ∷ t) c = refl

is_empty-reverse : (t : Text) → is_empty (reverse t) ≡ is_empty t
is_empty-reverse [] = refl
is_empty-reverse (c ∷ t) = rw (reverse-cons c t) (is_empty-snoc (reverse t) c)

pub is_blank_lem : (t : Text) → is_blank t ≡ all is_whitespace t
unfolding is_blank
is_blank_lem t =
    is_empty-reverse (trim_start (reverse (trim_start t)))
    ∙ is_empty-trim_start (reverse (trim_start t))
    ∙ all-reverse is_whitespace (trim_start t)
    ∙ all-trim_start t

-- The bytes of one code point.
utf8 : ℕ → List ℕ
utf8 c =
    if ltb c 0x80
    then c ∷ []
    else if ltb c 0x800
    then (0xC0 + c / 64) ∷ (0x80 + c % 64) ∷ []
    else if ltb c 0x10000
    then (0xE0 + c / 4096) ∷ (0x80 + c / 64 % 64) ∷ (0x80 + c % 64) ∷ []
    else (0xF0 + c / 262144) ∷ (0x80 + c / 4096 % 64) ∷ (0x80 + c / 64 % 64) ∷ (0x80 + c % 64) ∷ []

-- `value.bytes()`
unfoldable pub bytes : Text → List ℕ
unfolding utf8
bytes [] = []
bytes (c ∷ t) = utf8 c ++ bytes t
