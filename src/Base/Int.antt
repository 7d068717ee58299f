-- ===== src/Base/Int.antt =====
-- Signed 64-bit integers (`int64`, and `int`) over the native numbers. The library's ℤ stands on
-- the unary ℕ. Orders go through the two parts of an integer, which are numbers `omega` reads.
use alice_eve.Base.{
  ℕ, zero, suc, ◌+◌, ◌≤◌, ◌<◌, ◌≡◌, refl, Bool, arith, ltb, leb, eqb, if◌then◌else◌,
}

-- `negsuc n` is -(n + 1).
pub data ℤ : Type 0 where
  pos : ℕ → ℤ
  negsuc : ℕ → ℤ

abbrev pub pos_part : ℤ → ℕ
pos_part (pos n) = n
pos_part (negsuc n) = 0

abbrev pub neg_part : ℤ → ℕ
neg_part (pos n) = 0
neg_part (negsuc n) = suc n

infix 50 ◌<ℤ◌ ◌≤ℤ◌
abbrev pub ◌≤ℤ◌ : ℤ → ℤ → Type 0
a ≤ℤ b = pos_part a + neg_part b ≤ pos_part b + neg_part a

abbrev pub ◌<ℤ◌ : ℤ → ℤ → Type 0
a <ℤ b = pos_part a + neg_part b < pos_part b + neg_part a

abbrev pub ltb_ℤ : ℤ → ℤ → Bool
ltb_ℤ a b = ltb (pos_part a + neg_part b) (pos_part b + neg_part a)

abbrev pub leb_ℤ : ℤ → ℤ → Bool
leb_ℤ a b = leb (pos_part a + neg_part b) (pos_part b + neg_part a)

abbrev pub eqb_ℤ : ℤ → ℤ → Bool
eqb_ℤ a b = eqb (pos_part a + neg_part b) (pos_part b + neg_part a)

-- The greatest int64, 2 ^ 63 - 1.
abbrev pub max_int64 : ℕ
max_int64 = 9223372036854775807

-- `n++` on an int64, which wraps from the greatest to the least.
unfoldable pub inc64 : ℤ → ℤ
inc64 (pos n) = if ltb n max_int64 then pos (n + 1) else negsuc max_int64
inc64 (negsuc zero) = pos 0
inc64 (negsuc (suc n)) = negsuc n

pub eq_of_parts : (a b : ℤ) → pos_part a + neg_part b ≡ pos_part b + neg_part a → a ≡ b
eq_of_parts a b h = ground arith

-- Below the greatest value the counter goes up by one.
pub inc64_parts :
    (a : ℤ)
    → a <ℤ pos max_int64
    → pos_part (inc64 a) + neg_part a ≡ neg_part (inc64 a) + pos_part a + 1
unfolding inc64
inc64_parts (pos n) h = ground arith
inc64_parts (negsuc zero) h = refl
inc64_parts (negsuc (suc n)) h = omega arith

-- `n - 1` on an int64, which wraps from the least to the greatest.
unfoldable pub dec64 : ℤ → ℤ
dec64 (pos zero) = negsuc 0
dec64 (pos (suc n)) = pos n
dec64 (negsuc n) = if ltb n max_int64 then negsuc (n + 1) else pos max_int64
