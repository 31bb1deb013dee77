-- ===== src/Codec/Raw.antt =====
-- The blocks whose residuals are too wide to pack: their words as eight bytes each.
use Prim.Native.Nat.{bit_and, bit_or}
use volforge.Prelude.{
  ℕ, zero, suc, ◌+◌, ◌*◌, ◌/◌, ◌%◌, ◌^◌, ◌<◌, ◌≡◌, refl, sym, ap, ◌∙◌, List, [], ◌∷◌, ◌++◌, arith,
  length, All, length-append, All-append,
}
use volforge.Prelude.Bits.{bit_or_field, bit_and_mask, two_pow-add, product-le}
use volforge.Codec.{IsByte, IsU64, word, done}
use volforge.Codec.Encoder.{raw_bytes, raw_block}
use volforge.Codec.Decoder.{read_word, read_words}
use mathlib.Core.List.{append_assoc}
use native.Mathlib.Nat.{add-mul-div_left, div-eq_of_lt, div-add-mod}

eight_places : (b : ℕ) → 2 ^ (8 * (b + 1)) ≡ 2 ^ (8 * b) * 256
eight_places b =
    ap (λ (x : ℕ). 2 ^ x) (let more : 8 * (b + 1) ≡ 8 * b + 8 = omega arith in more)
    ∙ two_pow-add (8 * b) 8

-- The digits above `p`, where `acc` stands below it.
above_digits : (p acc h w : ℕ) → acc < p → acc + p * h ≡ w → w / p ≡ h
above_digits p acc h w k e =
    ap (λ (n : ℕ). n / p) (sym e)
    ∙ (add-mul-div_left acc h (omega (arith, k)) ∙ omega (arith, div-eq_of_lt k))

nothing_above : (p acc h w : ℕ) → acc + p * h ≡ w → w < p → acc ≡ w
nothing_above p acc zero w e k = omega (arith, e)
nothing_above p acc (suc h) w e k = absurd (omega (arith, e))

read_word-raw_bytes :
    (k b acc h w : ℕ) (rest : List ℕ)
    → b + k ≡ 8
    → IsU64 w
    → acc < 2 ^ (8 * b)
    → acc + 2 ^ (8 * b) * h ≡ w
    → read_word k b acc (raw_bytes k b w ++ rest) ≡ done (w, rest)
unfolding read_word raw_bytes
read_word-raw_bytes zero b acc h w rest e fits low sum =
    let whole : 2 ^ (8 * b) ≡ 2 ^ 64 =
      ap (λ (x : ℕ). 2 ^ (8 * x)) (let end : b ≡ 8 = omega arith in end) in
    ap (λ x. done (x, rest)) (nothing_above (2 ^ (8 * b)) acc h w sum (omega (arith, whole)))
read_word-raw_bytes (suc k) b acc h w rest e fits low sum =
    let p = 2 ^ (8 * b) in
    let digit : bit_and (w / p) 0xff ≡ h % 256 =
      ap (λ x. bit_and x 0xff) (above_digits p acc h w low sum) ∙ bit_and_mask 8 h in
    let split : p * h ≡ h % 256 * p + p * 256 * (h / 256) =
      omega (arith, ap (λ (t : ℕ). p * t) (div-add-mod h 256)) in
    let field : bit_or acc (word (h % 256 * p)) ≡ acc + h % 256 * p =
      ap (λ x. bit_or acc x) (omega (arith, sum, split)) ∙ bit_or_field (8 * b) acc (h % 256) low in
    let most = product-le (h % 256 + 1) 256 p (omega arith) in
    let eight = eight_places b in
    rw (digit, field)
      (read_word-raw_bytes k (b + 1) (acc + h % 256 * p) (h / 256) w rest (omega arith) fits
        (omega (arith, most, eight))
        (omega (arith, sum, split, ap (λ (t : ℕ). t * (h / 256)) eight)))

pub read_words-raw_block :
    (rs rest : List ℕ)
    → All IsU64 rs
    → read_words (length rs) (raw_block rs ++ rest) ≡ done (rs, rest)
unfolding read_words raw_block
read_words-raw_block [] rest a = refl
read_words-raw_block (r ∷ rs) rest (a, as') =
    let first =
      read_word-raw_bytes 8 0 0 r r (raw_block rs ++ rest) refl a (omega arith) (omega arith) in
    rw (append_assoc (raw_bytes 8 0 r) (raw_block rs) rest, first, read_words-raw_block rs rest as')
      refl

bit_and-IsByte : (n : ℕ) → IsByte (bit_and n 0xff)
bit_and-IsByte n = omega (arith, bit_and_mask 8 n)

raw_bytes-IsByte : (k b w : ℕ) → All IsByte (raw_bytes k b w)
unfolding raw_bytes
raw_bytes-IsByte zero b w = tt
raw_bytes-IsByte (suc k) b w = (bit_and-IsByte (w / 2 ^ (8 * b)), raw_bytes-IsByte k (b + 1) w)

pub raw_block-IsByte : (rs : List ℕ) → All IsByte (raw_block rs)
unfolding raw_block
raw_block-IsByte [] = tt
raw_block-IsByte (r ∷ rs) =
    All-append IsByte (raw_bytes 8 0 r) (raw_block rs) (raw_bytes-IsByte 8 0 r)
      (raw_block-IsByte rs)

length-raw_bytes : (k b w : ℕ) → length (raw_bytes k b w) ≡ k
unfolding raw_bytes
length-raw_bytes zero b w = refl
length-raw_bytes (suc k) b w = ap suc (length-raw_bytes k (b + 1) w)

pub length-raw_block : (rs : List ℕ) → length (raw_block rs) ≡ length rs * 8
unfolding raw_block
length-raw_block [] = omega arith
length-raw_block (r ∷ rs) = omega (
  arith,
  length-append (raw_bytes 8 0 r) (raw_block rs),
  length-raw_bytes 8 0 r,
  length-raw_block rs,
)
