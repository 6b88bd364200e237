-- ===== src/Prelude/Text.antt =====
-- Texts as lists of code points, with the methods of Python's `str` that the program calls.
use Prim.Native.Nat.{ℕ, ◌+◌, ◌-◌, ◌≤◌}
use Prim.Native.Char.{code}
use Prim.Native.String.{String}
use mathlib.Core.Path.{◌≡◌, refl}
use mathlib.Core.Logic.{◌↔◌}
use mathlib.Core.Bool.{Bool, true, false, ◌&&◌, ◌||◌}
use mathlib.Core.List.{List, [], ◌∷◌, reverse}
use native.Mathlib.Omega.{arith}
use horadus.Prelude.Tests.{leb, ◌==◌, if◌then◌else◌}
use horadus.Prelude.Lists.{length, length-reverse}

abbrev pub codes : String → List ℕ
codes String.[] = []
codes (String.◌∷◌ c s) = code c ∷ codes s

unfoldable pub text_eq : List ℕ → List ℕ → Bool
text_eq [] [] = true
text_eq [] (d ∷ t) = false
text_eq (c ∷ s) [] = false
text_eq (c ∷ s) (d ∷ t) = c == d && text_eq s t

pub text_eq_iff : (s t : List ℕ) → (text_eq s t ≡ true) ↔ (s ≡ t)
unfolding text_eq
text_eq_iff [] [] = (λ _. refl, λ _. refl)
text_eq_iff [] (d ∷ t) = (λ e. cc, λ e. cc)
text_eq_iff (c ∷ s) [] = (λ e. cc, λ e. cc)
text_eq_iff (c ∷ s) (d ∷ t) =
    (λ e. ground (arith, text_eq_iff s t), λ e. ground (arith, text_eq_iff s t))

-- The code points that `str.isspace` accepts.
unfoldable pub is_space : ℕ → Bool
is_space c =
    (leb 9 c && leb c 13)
    || (leb 28 c && leb c 32)
    || c == 133
    || c == 160
    || c == 5760
    || (leb 8192 c && leb c 8202)
    || c == 8232
    || c == 8233
    || c == 8239
    || c == 8287
    || c == 12288

unfoldable pub strip_left : List ℕ → List ℕ
strip_left [] = []
strip_left (c ∷ s) = if is_space c then strip_left s else c ∷ s

unfoldable pub strip_right : List ℕ → List ℕ
unfolding strip_left
strip_right s = reverse (strip_left (reverse s))

unfoldable pub strip : List ℕ → List ℕ
unfolding strip_left strip_right
strip s = strip_right (strip_left s)

length-strip_left : (s : List ℕ) → length (strip_left s) ≤ length s
unfolding strip_left
length-strip_left [] = omega arith
length-strip_left (c ∷ s) = ground (arith, length-strip_left s)

pub length-strip_right : (s : List ℕ) → length (strip_right s) ≤ length s
unfolding strip_right
length-strip_right s = omega (
  arith,
  length-reverse (strip_left (reverse s)),
  length-strip_left (reverse s),
  length-reverse s,
)

pub length-strip : (s : List ℕ) → length (strip s) ≤ length s
unfolding strip
length-strip s = omega (arith, length-strip_right (strip_left s), length-strip_left s)

-- ASCII letters only, as in the identifiers that the program folds.
unfoldable pub lower : ℕ → ℕ
lower c = if leb b'A' c && leb c b'Z' then c + 32 else c

unfoldable pub upper : ℕ → ℕ
upper c = if leb b'a' c && leb c b'z' then c - 32 else c

unfoldable pub starts_with : List ℕ → List ℕ → Bool
starts_with [] s = true
starts_with (p ∷ ps) [] = false
starts_with (p ∷ ps) (c ∷ s) = c == p && starts_with ps s

-- `needle in text`
unfoldable pub contains : List ℕ → List ℕ → Bool
unfolding starts_with
contains needle [] = starts_with needle []
contains needle (c ∷ s) = starts_with needle (c ∷ s) || contains needle s
