-- ===== src/Base/Split.antt =====
-- Of Go's `strings` and `strconv`: cutting a text at a character, and reading a decimal number.
use Prim.Native.Char.{Char, code}
use alice_eve.Base.{
  ◌≡◌, refl, Bool, true, false, ◌&&◌, ◌||◌, Option, none, some, String, if◌then◌else◌, leb, eqb,
  ltb, List, [], ◌∷◌, ℕ, zero, suc, ◌+◌, ◌-◌, ◌*◌,
}
use alice_eve.Base.Int.{ℤ, pos, negsuc, max_int64}

-- `strings.TrimPrefix(s, p)` for a `p` of one character, by its code.
unfoldable pub trim_prefix : ℕ → String → String
trim_prefix p String.[] = ""
trim_prefix p (String.◌∷◌ c s) = if eqb (code c) p then s else String.◌∷◌ c s

-- `strings.SplitN(s, sep, 2)`: what stands before the separator, and what stands behind it.
unfoldable pub split_2 : ℕ → String → String × Option String
split_2 sep String.[] = ("", none)
split_2 sep (String.◌∷◌ c s) =
    let rest = split_2 sep s in
    if eqb (code c) sep then ("", some s) else (String.◌∷◌ c rest.0, rest.1)

prepend : Char → List String → List String
prepend c [] = String.◌∷◌ c "" ∷ []
prepend c (part ∷ parts) = String.◌∷◌ c part ∷ parts

-- `strings.Split(s, sep)`.
unfoldable pub split : ℕ → String → List String
unfolding prepend
split sep String.[] = "" ∷ []
split sep (String.◌∷◌ c s) =
    let rest = split sep s in if eqb (code c) sep then "" ∷ rest else prepend c rest

digits : ℕ → String → Option ℕ
digits n String.[] = some n
digits n (String.◌∷◌ c s) =
    let rest = digits (n * 10 + (code c - 48)) s in
    if leb 48 (code c) && leb (code c) 57 then rest else none

natural : String → Option ℕ
unfolding digits
natural String.[] = none
natural (String.◌∷◌ c s) = digits 0 (String.◌∷◌ c s)

negate : ℕ → ℤ
negate zero = pos 0
negate (suc n) = negsuc n

-- `strconv.Atoi`: an optional sign, decimal digits, within int64.
unfoldable pub atoi : String → Option ℤ
unfolding natural negate
atoi String.[] = none
atoi (String.◌∷◌ c s) =
    if eqb (code c) 45
    then elim (natural s) [
      | none ↦ none
      | some n ↦ if leb n (max_int64 + 1) then some (negate n) else none
    ]
    else elim (natural (if eqb (code c) 43 then s else String.◌∷◌ c s)) [
      | none ↦ none
      | some n ↦ if leb n max_int64 then some (pos n) else none
    ]

-- `len(s)`: the bytes of UTF-8.
unfoldable pub byte_length : String → ℕ
byte_length String.[] = 0
byte_length (String.◌∷◌ c s) =
    (if ltb (code c) 0x80
      then 1
      else if ltb (code c) 0x800
      then 2
      else if ltb (code c) 0x10000
      then 3
      else 4)
    + byte_length s

lower : ℕ → ℕ
lower c = if leb 65 c && leb c 90 then c + 32 else c

-- `strings.HasPrefix(strings.ToLower(s), p)` for a `p` of ASCII letters but `k`, and of signs: no other
-- character has one of these as its lower case.
unfoldable pub has_prefix_fold : String → String → Bool
unfolding lower
has_prefix_fold String.[] s = true
has_prefix_fold (String.◌∷◌ p ps) String.[] = false
has_prefix_fold (String.◌∷◌ p ps) (String.◌∷◌ c s) =
    eqb (lower (code c)) (code p) && has_prefix_fold ps s

-- The characters that `hex.DecodeString` takes.
unfoldable pub is_hex : String → Bool
is_hex String.[] = true
is_hex (String.◌∷◌ c s) =
    ((leb 48 (code c) && leb (code c) 57)
      || (leb 65 (code c) && leb (code c) 70)
      || (leb 97 (code c) && leb (code c) 102))
    && is_hex s

three_parts : split 46 "1.20.3" ≡ "1" ∷ "20" ∷ "3" ∷ []
unfolding split prepend
three_parts = refl

signs : (atoi "-12" ≡ some (negsuc 11)) × (atoi "+7" ≡ some (pos 7)) × (atoi "1_0" ≡ none)
unfolding atoi natural digits negate
signs = (refl, refl, refl)
