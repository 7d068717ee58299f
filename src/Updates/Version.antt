-- ===== src/Updates/Version.antt =====
-- service.go: `Version`, how one is read and how two compare.
use alice_eve.Base.{
  ◌≡◌, refl, Bool, not, Option, none, some, String, ◌==◌, if◌then◌else◌, List, [], ◌∷◌, ℕ, ltb, eqb,
}
use alice_eve.Base.Int.{ℤ, pos, negsuc, ltb_ℤ}
use alice_eve.Base.Text.{trim_space, text_less}
use alice_eve.Base.Split.{trim_prefix, split_2, split, atoi}

-- `ParseVersion` lets no negative number through.
pub record Version : Type 0 where
  pub major : ℕ
  pub minor : ℕ
  pub patch : ℕ
  pub pre : String

-- `n, e := strconv.Atoi(s)` with `e == nil` and `n >= 0`.
unfoldable pub number : String → Option ℕ
number s = elim (atoi s) [ some (pos n) ↦ some n | _ ↦ none ]

abbrev pub or_empty : Option String → String
or_empty none = ""
or_empty (some s) = s

abbrev pub numbers : List String → String → Option Version
numbers (a ∷ b ∷ c ∷ []) pre = elim (number a) [
  | none ↦ none
  | some major ↦ elim (number b) [
    | none ↦ none
    | some minor ↦ elim (number c) [
      | none ↦ none
      | some patch ↦ some (record { major = major; minor = minor; patch = patch; pre = pre })
    ]
  ]
]
numbers _ pre = none

unfoldable pub parse_version : String → Option Version
parse_version raw =
    let parts = split_2 45 (trim_space (trim_prefix 118 raw)) in
    numbers (split 46 parts.0) (or_empty parts.1)

unfoldable pub compare : Version → Version → ℤ
compare v o =
    if not (eqb v.major o.major)
    then (if ltb v.major o.major then negsuc 0 else pos 1)
    else if not (eqb v.minor o.minor)
    then (if ltb v.minor o.minor then negsuc 0 else pos 1)
    else if not (eqb v.patch o.patch)
    then (if ltb v.patch o.patch then negsuc 0 else pos 1)
    else if v.pre == o.pre
    then pos 0
    else if v.pre == ""
    then pos 1
    else if o.pre == ""
    then negsuc 0
    else if text_less v.pre o.pre
    then negsuc 0
    else pos 1

abbrev pub less : Version → Version → Bool
less v o = ltb_ℤ (compare v o) (pos 0)

-- `v, _ := ParseVersion(raw)`.
abbrev pub version_of : String → Version
version_of raw = elim (parse_version raw) [
  | none ↦ record { major = 0; minor = 0; patch = 0; pre = "" }
  | some v ↦ v
]

reads :
    parse_version "v1.2.3-rc-1" ≡ some (record { major = 1; minor = 2; patch = 3; pre = "rc-1" })
unfolding parse_version number split split_2 trim_space trim_prefix atoi
reads = refl
