-- ===== src/Base/Text.antt =====
-- `strings.TrimSpace` over the native texts: the white space of `unicode.IsSpace`.
use Prim.Native.Char.{Char, code}
use Prim.Native.String.{String}
use Prim.Native.Nat.{ℕ}
use mathlib.Core.Path.{◌≡◌, refl}
use mathlib.Core.Bool.{Bool, true, false, ◌&&◌, ◌||◌}
use alice_eve.Base.Tests.{ltb, leb, eqb, if◌then◌else◌}

-- `unicode.IsSpace`.
pub is_space : ℕ → Bool
is_space c =
    (leb 0x09 c && leb c 0x0d)
    || eqb c 0x20
    || eqb c 0x85
    || eqb c 0xa0
    || eqb c 0x1680
    || (leb 0x2000 c && leb c 0x200a)
    || eqb c 0x2028
    || eqb c 0x2029
    || eqb c 0x202f
    || eqb c 0x205f
    || eqb c 0x3000

-- `strings.TrimSpace(s) == ""`.
unfoldable pub is_blank : String → Bool
unfolding is_space
is_blank String.[] = true
is_blank (String.◌∷◌ c s) = if is_space (code c) then is_blank s else false

trim_left : String → String
trim_left String.[] = ""
trim_left (String.◌∷◌ c s) = if is_space (code c) then trim_left s else String.◌∷◌ c s

-- A trailing space goes exactly when nothing is left behind it.
close : Char → String → String
close c String.[] = if is_space (code c) then "" else String.◌∷◌ c ""
close c (String.◌∷◌ d s) = String.◌∷◌ c (String.◌∷◌ d s)

trim_right : String → String
unfolding close
trim_right String.[] = ""
trim_right (String.◌∷◌ c s) = close c (trim_right s)

-- `strings.TrimSpace`.
unfoldable pub trim_space : String → String
unfolding trim_left trim_right is_space
trim_space s = trim_right (trim_left s)

trim_both_ends : trim_space " \t ab c\n " ≡ "ab c"
unfolding trim_space
trim_both_ends = refl

blank_line : is_blank " \t\n" ≡ true
unfolding is_blank
blank_line = refl

-- `s < t` on texts: by the code of the first character that differs, as the bytes of UTF-8 order
-- them.
unfoldable pub text_less : String → String → Bool
text_less s String.[] = false
text_less String.[] (String.◌∷◌ d t) = true
text_less (String.◌∷◌ c s) (String.◌∷◌ d t) =
    let rest = text_less s t in if eqb (code c) (code d) then rest else ltb (code c) (code d)
