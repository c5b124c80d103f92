-- ===== src/Base/Texts.antt =====
-- Texts as lists of code points, for what the program reads character by character or compares.
use Prim.Native.Nat.{ℕ}
use Prim.Native.Char.{code}
use Prim.Native.String.{String}
use mathlib.Core.Path.{◌≡◌, refl, ap₂}
use mathlib.Core.Bool.{Bool, true, false, ◌&&◌, ◌||◌}
use mathlib.Core.List.{List, [], ◌∷◌}
use native.Mathlib.Omega.{arith}
use elysiajs_production_api.Base.Tests.{◌==◌, ==_iff}

abbrev pub Text : Type 0
Text = List ℕ

abbrev pub codes : String → Text
codes String.[] = []
codes (String.◌∷◌ c s) = code c ∷ codes s

abbrev pub text_eq : Text → Text → Bool
text_eq [] [] = true
text_eq (c ∷ s) (d ∷ t) = c == d && text_eq s t
text_eq _ _ = false

-- `!s` of a string: it is empty.
abbrev pub is_empty : Text → Bool
is_empty [] = true
is_empty (c ∷ s) = false

pub text_eq_to : (s t : Text) → text_eq s t ≡ true → s ≡ t
text_eq_to [] [] h = refl
text_eq_to (c ∷ s) (d ∷ t) h =
    ap₂ ◌∷◌ ((==_iff c d).0 (ground arith)) (text_eq_to s t (ground arith))
text_eq_to [] (d ∷ t) h = cc
text_eq_to (c ∷ s) [] h = cc

pub text_eq_self : (s : Text) → text_eq s s ≡ true
text_eq_self [] = refl
text_eq_self (c ∷ s) = ground (arith, text_eq_self s)

abbrev pub mem_text : Text → List Text → Bool
mem_text t [] = false
mem_text t (s ∷ l) = text_eq t s || mem_text t l

-- `s.startsWith(prefix)`
abbrev pub starts_with : Text → Text → Bool
starts_with [] s = true
starts_with (c ∷ p) [] = false
starts_with (c ∷ p) (d ∷ s) = c == d && starts_with p s
