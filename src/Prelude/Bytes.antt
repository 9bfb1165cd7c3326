-- ===== src/Prelude/Bytes.antt =====
-- Go strings: sequences of bytes, with the lexicographic order.
use Prim.Native.Nat.{ℕ, ◌-◌}
use Prim.Native.Char.{code}
use Prim.Native.String.{String}
use mathlib.Core.Path.{◌≡◌}
use mathlib.Core.Logic.{◌↔◌}
use mathlib.Core.Bool.{Bool, true, false, ◌&&◌, ◌||◌}
use mathlib.Core.List.{List, [], ◌∷◌}
use estoria.Prelude.Lists.{length, drop}
use native.Mathlib.Omega.{arith}
use estoria.Prelude.Tests.{◌==◌, ltb, leb}

abbrev pub Text : Type 0
Text = List ℕ

-- The bytes of an ASCII literal.
abbrev pub codes : String → Text
codes String.[] = []
codes (String.◌∷◌ c s) = code c ∷ codes s

-- `a == b`
unfoldable pub text_eq : Text → Text → Bool
text_eq [] [] = true
text_eq [] (b ∷ ys) = false
text_eq (a ∷ xs) [] = false
text_eq (a ∷ xs) (b ∷ ys) = a == b && text_eq xs ys

-- `a < b`
unfoldable pub text_lt : Text → Text → Bool
text_lt xs [] = false
text_lt [] (b ∷ ys) = true
text_lt (a ∷ xs) (b ∷ ys) = ltb a b || (a == b && text_lt xs ys)

pub text_eq_iff : (a b : Text) → (text_eq a b ≡ true) ↔ (a ≡ b)
unfolding text_eq
text_eq_iff [] [] = ground arith
text_eq_iff [] (b ∷ ys) = ground arith
text_eq_iff (a ∷ xs) [] = ground arith
text_eq_iff (a ∷ xs) (b ∷ ys) = ground (arith, text_eq_iff xs ys)

-- strings.HasPrefix
unfoldable pub has_prefix : Text → Text → Bool
has_prefix xs [] = true
has_prefix [] (b ∷ ys) = false
has_prefix (a ∷ xs) (b ∷ ys) = a == b && has_prefix xs ys

-- strings.HasSuffix
unfoldable pub has_suffix : Text → Text → Bool
unfolding text_eq
has_suffix s suffix =
    leb (length suffix) (length s) && text_eq (drop (length s - length suffix) s) suffix
