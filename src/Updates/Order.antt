-- ===== src/Updates/Order.antt =====
-- service.go: versions are in a total order.
use Prim.Native.Char.{code}
use alice_eve.Base.{
  ◌≡◌, refl, Bool, true, false, String, ◌==◌, eq_iff, if◌then◌else◌, Bool-cases, ◌↔◌, subst, inl,
  inr, ltb, arith,
}
use text.Mathlib.TextEquality.{Char-path}
use alice_eve.Base.Int.{pos, ltb_ℤ}
use alice_eve.Base.Text.{text_less}
use alice_eve.Updates.Version.{Version, compare, less}

text_less_irrefl : (s : String) → text_less s s ≡ false
unfolding text_less
text_less_irrefl String.[] = refl
text_less_irrefl (String.◌∷◌ c s) = let rest = text_less_irrefl s in ground (arith, rest)

text_less_asym : (s t : String) → text_less s t ≡ true → text_less t s ≡ false
unfolding text_less
text_less_asym s String.[] h = absurd (ground (arith, h))
text_less_asym String.[] (String.◌∷◌ d t) h = refl
text_less_asym (String.◌∷◌ c s) (String.◌∷◌ d t) h =
    let rest = text_less_asym s t in ground (arith, rest, h)

text_less_trans :
    (s t u : String) → text_less s t ≡ true → text_less t u ≡ true → text_less s u ≡ true
unfolding text_less
text_less_trans s t String.[] h k = absurd (ground (arith, k))
text_less_trans s String.[] (String.◌∷◌ e u) h k = absurd (ground (arith, h))
text_less_trans String.[] (String.◌∷◌ d t) (String.◌∷◌ e u) h k = refl
text_less_trans (String.◌∷◌ c s) (String.◌∷◌ d t) (String.◌∷◌ e u) h k =
    let rest = text_less_trans s t u in ground (arith, rest, h, k)

text_less_total : (s t : String) → text_less s t ≡ false → text_less t s ≡ false → s ≡ t
unfolding text_less
text_less_total String.[] String.[] h k = refl
text_less_total String.[] (String.◌∷◌ d t) h k = absurd (ground (arith, h))
text_less_total (String.◌∷◌ c s) String.[] h k = absurd (ground (arith, k))
text_less_total (String.◌∷◌ c s) (String.◌∷◌ d t) h k =
    let rest = text_less_total s t in
    let same : code c ≡ code d = ground (arith, h, k) in
    let first : c ≡ d = Char-path c d same in
    let others : s ≡ t = rest (ground (arith, h, same)) (ground (arith, k, same)) in
    λ i. String.◌∷◌ (first i) (others i)

module _ (u v : Version) where
  compare_flip : ltb_ℤ (compare u v) (pos 0) ≡ ltb_ℤ (pos 0) (compare v u)
  unfolding compare
  compare_flip = ground (
    arith,
    eq_iff u.pre v.pre,
    eq_iff v.pre u.pre,
    eq_iff u.pre "",
    eq_iff v.pre "",
    text_less_asym u.pre v.pre,
    text_less_asym v.pre u.pre,
    text_less_total u.pre v.pre,
  )

  compare_same : compare u v ≡ pos 0 → u ≡ v
  unfolding compare
  compare_same h =
      let major : u.major ≡ v.major = ground (arith, h) in
      let minor : u.minor ≡ v.minor = ground (arith, h) in
      let patch : u.patch ≡ v.patch = ground (arith, h) in
      let pre : u.pre ≡ v.pre = ground (arith, h, eq_iff u.pre v.pre) in
      λ i. record { major = major i; minor = minor i; patch = patch i; pre = pre i }

  compare_self : u ≡ v → compare u v ≡ pos 0
  unfolding compare
  compare_self same = rw same (ground (arith, eq_iff v.pre v.pre))

-- The order of the parts behind the numbers: none comes last.
unfoldable less_pre : String → String → Bool
less_pre s t =
    if s == t then false else if s == "" then false else if t == "" then true else text_less s t

less_pre_trans : (s t u : String) → less_pre s t ≡ true → less_pre t u ≡ true → less_pre s u ≡ true
unfolding less_pre
less_pre_trans s t u h k = ground (
  arith,
  h,
  k,
  eq_iff s t,
  eq_iff t u,
  eq_iff s u,
  eq_iff s "",
  eq_iff t "",
  eq_iff u "",
  text_less_trans s t u,
  text_less_irrefl s,
  text_less_asym s t,
)

less_parts :
    (u v : Version)
    → less u v ≡ (
        if ltb u.major v.major
        then true
        else if ltb v.major u.major
        then false
        else if ltb u.minor v.minor
        then true
        else if ltb v.minor u.minor
        then false
        else if ltb u.patch v.patch
        then true
        else if ltb v.patch u.patch
        then false
        else less_pre u.pre v.pre)
unfolding compare less_pre
less_parts u v = ground arith

pub less_trans : (u v w : Version) → less u v ≡ true → less v w ≡ true → less u w ≡ true
less_trans u v w h k =
    ground (
      arith,
      h,
      k,
      less_parts u v,
      less_parts v w,
      less_parts u w,
      less_pre_trans u.pre v.pre w.pre,
    )

-- Versions are in a strict total order: `Compare` is 0 for equal versions and for no others, it turns its
-- sign when its two versions change places, and `Less` is transitive.
pub version_order :
    (u v w : Version)
    → ((compare u v ≡ pos 0) ↔ (u ≡ v))
      × (less u v ≡ ltb_ℤ (pos 0) (compare v u))
      × (less u v ≡ true → less v w ≡ true → less u w ≡ true)
version_order u v w = ((compare_same u v, compare_self u v), compare_flip u v, less_trans u v w)

pub less_asym : (u v : Version) → less u v ≡ true → less v u ≡ false
less_asym u v h = ground (arith, h, compare_flip u v, compare_flip v u)

-- As `sort.Slice` needs it: what is not less stays so along a chain.
pub not_less_trans : (u v w : Version) → less v u ≡ false → less w v ≡ false → less w u ≡ false
not_less_trans u v w h k = elim (Bool-cases (less w u)) [
  | inr apart ↦ apart
  | inl under ↦ elim (Bool-cases (less u v)) [
    | inl below ↦ absurd (ground (arith, k, less_trans w u v under below))
    | inr other ↦
        let same : u ≡ v =
          compare_same u v (ground (arith, h, other, compare_flip u v, compare_flip v u)) in
        absurd (ground (arith, k, subst (λ (x : Version). less w x ≡ true) same under))
  ]
]
