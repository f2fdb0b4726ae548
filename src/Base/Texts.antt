-- ===== src/Base/Texts.antt =====
-- Equality of texts as a Boolean test, and membership in a `Set<string>`.
use Prim.Native.String.{String, ◌++◌}
use text.Mathlib.Text.{◌==◌}
use text.Mathlib.TextEquality.{eq_iff}
use mathlib.Core.Path.{◌≡◌, refl}
use mathlib.Core.Logic.{◌↔◌, ◌≢◌}
use mathlib.Core.Bool.{Bool, true, false, ◌||◌}
use mathlib.Core.List.{List, [], ◌∷◌}
use native.Mathlib.Omega.{arith}

-- `a === b` on strings
abbrev pub str_eq : String → String → Bool
str_eq s t = s == t

pub str_eq_iff : (s t : String) → (str_eq s t ≡ true) ↔ (s ≡ t)
str_eq_iff = eq_iff

pub str_eq_refl : (s : String) → str_eq s s ≡ true
str_eq_refl s = (eq_iff s s).1 refl

pub str_eq→eq : {s t : String} → str_eq s t ≡ true → s ≡ t
str_eq→eq {s} {t} h = (eq_iff s t).0 h

pub str_eq→ne : {s t : String} → str_eq s t ≡ false → s ≢ t
str_eq→ne {s} {t} h e = ground (arith, eq_iff s t)

-- `set.has(x)`
unfoldable pub contains : String → List String → Bool
contains x [] = false
contains x (y ∷ ys) = str_eq y x || contains x ys

pub contains-nil : (x : String) → contains x [] ≡ false
unfolding contains
contains-nil x = refl

pub contains-cons :
    (x y : String) (ys : List String) → contains x (y ∷ ys) ≡ (str_eq y x || contains x ys)
unfolding contains
contains-cons x y ys = refl

-- `${s}${t}`
abbrev pub text_append : String → String → String
text_append s t = s ++ t
