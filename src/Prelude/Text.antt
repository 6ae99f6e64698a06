-- ===== src/Prelude/Text.antt =====
-- Texts compared whole, and SQLite's and Python's readings of a nullable text.
use Prim.Native.Char.{Char, code, nul}
use Prim.Native.Nat.{ℕ, zero, suc, ◌+◌, ◌-◌}
use Prim.Native.String.{String}
use mathlib.Core.Path.{◌≡◌, refl, sym, ap, ◌∙◌}
use mathlib.Core.Bool.{Bool, true, false, not, ◌&&◌}
use mathlib.Core.Option.{Option, none, some}
use mathlib.Core.List.{List, [], ◌∷◌}
use native.Mathlib.Omega.{arith}
pub use text.Mathlib.Text.{◌==◌ as str_eq}
pub use text.Mathlib.TextEquality.{eq_iff}
pub use text.Mathlib.TextPositions.{eq_refl}
use sbc_mcu_dut_controller.Prelude.Tests.{leb, if◌then◌else◌}

-- The code points of a text.
abbrev pub codes : String → List ℕ
codes String.[] = []
codes (String.◌∷◌ c s) = code c ∷ codes s

-- `lower()` of one, for ASCII
abbrev pub lower : ℕ → ℕ
lower c = if leb b'A' c && leb c b'Z' then c + 32 else c

abbrev letter : String → ℕ → Char
letter String.[] n = nul
letter (String.◌∷◌ c s) zero = c
letter (String.◌∷◌ c s) (suc n) = letter s n

-- `lower()` of a text, for ASCII
abbrev pub lower_text : String → String
lower_text String.[] = ""
lower_text (String.◌∷◌ c s) =
    String.◌∷◌
      (if leb b'A' (code c) && leb (code c) b'Z'
        then letter "abcdefghijklmnopqrstuvwxyz" (code c - 65)
        else c)
      (lower_text s)

infixr 60 ◌<>◌
-- `s + t`, by recursion on `s`
abbrev pub ◌<>◌ : String → String → String
String.[] <> t = t
(String.◌∷◌ c s) <> t = String.◌∷◌ c (s <> t)

-- `x in {...}`
abbrev pub one_of : String → List String → Bool
one_of s [] = false
one_of s (t ∷ ts) = if str_eq s t then true else one_of s ts

-- `bool(value)` for `str | None`
abbrev pub truthy : Option String → Bool
truthy none = false
truthy (some s) = not (str_eq s "")

-- `a or b` for values of type `str | None`
abbrev pub or_else : Option String → Option String → Option String
or_else a b = if truthy a then a else b

-- SQL `column = ?`: NULL equals nothing.
abbrev pub sql_eq : Option String → Option String → Bool
sql_eq (some s) (some t) = str_eq s t
sql_eq _ _ = false

-- `column IS NULL`
abbrev pub is_null {ℓ} : {A : Type ℓ} → Option A → Bool
is_null none = true
is_null (some _) = false

-- `COALESCE(a, b)`
abbrev pub coalesce {ℓ} : {A : Type ℓ} → Option A → Option A → Option A
coalesce none b = b
coalesce (some a) b = some a

pub str_eq_comm : (s t : String) → str_eq s t ≡ str_eq t s
str_eq_comm s t = ground (arith, eq_iff s t, eq_iff t s)

pub sql_eq_comm : (a b : Option String) → sql_eq a b ≡ sql_eq b a
sql_eq_comm none none = refl
sql_eq_comm none (some t) = refl
sql_eq_comm (some s) none = refl
sql_eq_comm (some s) (some t) = str_eq_comm s t

pub str_eq_of_eq : (s t : String) → s ≡ t → str_eq s t ≡ true
str_eq_of_eq s t e = (eq_iff s t).1 e

-- SQL's equality is transitive through a text.
pub sql_eq_join :
    (a b : Option String) (d : String)
    → sql_eq a (some d) ≡ true
    → sql_eq b (some d) ≡ true
    → sql_eq a b ≡ true
sql_eq_join none b d h k = cc
sql_eq_join (some s) none d h k = cc
sql_eq_join (some s) (some t) d h k = str_eq_of_eq s t ((eq_iff s d).0 h ∙ sym ((eq_iff t d).0 k))

pub sql_eq→eq : (a : Option String) (d : String) → sql_eq a (some d) ≡ true → a ≡ some d
sql_eq→eq none d h = cc
sql_eq→eq (some s) d h = ap some ((eq_iff s d).0 h)
