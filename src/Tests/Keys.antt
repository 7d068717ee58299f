-- ===== src/Tests/Keys.antt =====
-- A key of the route cache that tells queries apart, for the tests: its numbers one after the other.
use Prim.Native.Char.{Char, char, code}
use alice_eve.Base.{◌≡◌, refl, ap, String, ℕ, zero, suc, arith}
use alice_eve.Base.Int.{ℤ, pos, negsuc}
use alice_eve.Routes.{Checked}

-- The digits 0 and 1.
abbrev pub nil : Char
nil = char 48 tt

abbrev pub stroke : Char
stroke = char 49 tt

abbrev pub unary : ℕ → String → String
unary zero s = String.◌∷◌ nil s
unary (suc n) s = String.◌∷◌ stroke (unary n s)

abbrev head : String → ℕ
head String.[] = 0
head (String.◌∷◌ c s) = code c

abbrev tail : String → String
tail String.[] = ""
tail (String.◌∷◌ c s) = s

unary_lem : (m n : ℕ) (s t : String) → unary m s ≡ unary n t → (m ≡ n) × (s ≡ t)
unary_lem zero zero s t h = (refl, ap tail h)
unary_lem zero (suc n) s t h = let differ : 48 ≡ 49 = ap head h in absurd (omega (arith, differ))
unary_lem (suc m) zero s t h = let differ : 49 ≡ 48 = ap head h in absurd (omega (arith, differ))
unary_lem (suc m) (suc n) s t h =
    let rest = unary_lem m n s t (ap tail h) in (ap suc rest.0, rest.1)

abbrev pub signed : ℤ → String → String
signed (pos n) s = String.◌∷◌ nil (unary n s)
signed (negsuc n) s = String.◌∷◌ stroke (unary n s)

signed_lem : (a b : ℤ) (s t : String) → signed a s ≡ signed b t → (a ≡ b) × (s ≡ t)
signed_lem (pos m) (pos n) s t h =
    let rest = unary_lem m n s t (ap tail h) in (ap pos rest.0, rest.1)
signed_lem (pos m) (negsuc n) s t h =
    let differ : 48 ≡ 49 = ap head h in absurd (omega (arith, differ))
signed_lem (negsuc m) (pos n) s t h =
    let differ : 49 ≡ 48 = ap head h in absurd (omega (arith, differ))
signed_lem (negsuc m) (negsuc n) s t h =
    let rest = unary_lem m n s t (ap tail h) in (ap negsuc rest.0, rest.1)

abbrev pub key : ℤ → Checked ℕ → String
key version q =
    signed version (signed q.from (signed q.to (unary q.min_security (unary q.max_jumps ""))))

pub key_injective : (v v' : ℤ) (q q' : Checked ℕ) → key v q ≡ key v' q' → (v ≡ v') × (q ≡ q')
key_injective v v' q q' h =
    let version = signed_lem v v' _ _ h in
    let from = signed_lem q.from q'.from _ _ version.1 in
    let to = signed_lem q.to q'.to _ _ from.1 in
    let least = unary_lem q.min_security q'.min_security _ _ to.1 in
    let most = unary_lem q.max_jumps q'.max_jumps "" "" least.1 in
    (
      version.0,
      λ i. record { from = from.0 i; to = to.0 i; min_security = least.0 i; max_jumps = most.0 i },
    )
