-- ===== src/Codec/Varint.antt =====
-- The integers of the format: `get_varint` reads what `put_varint` writes, and `unzigzag` undoes
-- `zigzag`.
use Prim.Native.Nat.{bit_and}
use volforge.Prelude.{
  ℕ, zero, suc, ◌+◌, ◌-◌, ◌*◌, ◌/◌, ◌%◌, ◌^◌, ◌≤◌, ◌<◌, ◌≡◌, ap, ◌∙◌, inl, inr, List, [], ◌∷◌, ◌++◌,
  arith, ltb, leb, if◌then◌else◌, leb→le, Bool-cases, All,
}
use volforge.Prelude.Bits.{
  bit_or_field, bit_and_mask, bit_xor_ones, bit_xor-zero, bit_and_low7, bit_and_top, bit_or_top,
  two_pow-add, product-le,
}
use volforge.Codec.{
  IsByte, IsU64, word, done, zigzag, unzigzag, put_from, put_varint, get_from, get_varint,
}
use native.Mathlib.Nat.{pow-le-pow_right, div-add-mod}
use native.Mathlib.Decide.{dec_lt}

zigzag_lem :
    (v : ℕ) → IsU64 v → zigzag v ≡ (if leb (2 ^ 63) v then 2 * (2 ^ 64 - 1 - v) + 1 else 2 * v)
unfolding zigzag
zigzag_lem v h = elim (Bool-cases (leb (2 ^ 63) v)) [
  | inl below ↦
      rw below
        (omega (arith, bit_xor_ones 64 (word (v * 2)) (omega arith), leb→le (2 ^ 63) v below))
  | inr above ↦ rw above (bit_xor-zero (word (v * 2)) ∙ ground arith)
]

pub zigzag-IsU64 : (v : ℕ) → IsU64 v → IsU64 (zigzag v)
zigzag-IsU64 v h = ground (arith, zigzag_lem v h)

pub unzigzag-zigzag : (v : ℕ) → IsU64 v → unzigzag (zigzag v) ≡ v
unfolding unzigzag
unzigzag-zigzag v h = elim (Bool-cases (leb (2 ^ 63) v)) [
  | inl below ↦
      let sign : zigzag v ≡ 2 * (2 ^ 64 - 1 - v) + 1 = zigzag_lem v h ∙ rw below in
      let odd : bit_and (zigzag v) 1 ≡ 1 = bit_and_mask 1 (zigzag v) ∙ omega (arith, sign) in
      let half : zigzag v / 2 ≡ 2 ^ 64 - 1 - v = omega (arith, sign) in
      rw (odd, half) (omega (arith, bit_xor_ones 64 (2 ^ 64 - 1 - v) (omega arith)))
  | inr above ↦
      let sign : zigzag v ≡ 2 * v = zigzag_lem v h ∙ rw above in
      let even : bit_and (zigzag v) 1 ≡ 0 = bit_and_mask 1 (zigzag v) ∙ omega (arith, sign) in
      let half : zigzag v / 2 ≡ v = omega (arith, sign) in rw (even, half) (bit_xor-zero v)
]

shift_by_seven : (s : ℕ) → 2 ^ (s + 7) ≡ 128 * 2 ^ s
shift_by_seven s = omega (arith, two_pow-add s 7)

-- The exponent of a power that fits in a word.
exponent-lt : (s : ℕ) → 2 ^ s < 2 ^ 64 → s < 64
exponent-lt s h = elim (dec_lt s 64) [
  | yes k ↦ k
  | no k ↦
      absurd (omega (arith, pow-le-pow_right {n = 2} (omega arith) {i = 64} {j = s} (omega arith)))
]

-- One byte of `get_varint`: the last, and one that others follow.
last_byte :
    (v out shift : ℕ) (rest : List ℕ)
    → v < 128
    → out < 2 ^ shift
    → IsU64 (out + v * 2 ^ shift)
    → get_from (v ∷ rest) out shift ≡ done (out + v * 2 ^ shift, rest)
unfolding get_from
last_byte v out shift rest h k fits =
    let low = bit_and_low7 v (omega arith) in
    let top = bit_and_top v (omega arith) in
    let field = bit_or_field shift out v k in ground (arith, low, top, field)

inner_byte :
    (g out shift : ℕ) (rest : List ℕ)
    → g < 128
    → out < 2 ^ shift
    → shift + 7 < 64
    → IsU64 (out + g * 2 ^ shift)
    → get_from ((g + 128) ∷ rest) out shift ≡ get_from rest (out + g * 2 ^ shift) (shift + 7)
unfolding get_from
inner_byte g out shift rest h k room fits =
    let low = bit_and_low7 (g + 128) (omega arith) in
    let top = bit_and_top (g + 128) (omega arith) in
    let field = bit_or_field shift out g k in ground (arith, low, top, field)

-- One turn of `put_varint`.
put_from_last : (n v : ℕ) → v < 128 → put_from (suc n) v ≡ v ∷ []
unfolding put_from
put_from_last n v h = ground arith

put_from_more : (n v : ℕ) → 128 ≤ v → put_from (suc n) v ≡ (v % 128 + 128) ∷ put_from n (v / 128)
unfolding put_from
put_from_more n v h = let top = bit_or_top (v % 256) (omega arith) in ground (arith, top)

-- The lowest group of `v` and the others, shifted.
groups : (v s : ℕ) → v * 2 ^ s ≡ v % 128 * 2 ^ s + v / 128 * 2 ^ (s + 7)
groups v s = omega (
  arith,
  ap (λ (t : ℕ). t * 2 ^ s) (div-add-mod v 128),
  ap (λ (t : ℕ). v / 128 * t) (shift_by_seven s),
)

get_from-put_from :
    (n v out shift : ℕ) (rest : List ℕ)
    → out < 2 ^ shift
    → IsU64 (out + v * 2 ^ shift)
    → 64 ≤ shift + 7 * n
    → shift < 64
    → get_from (put_from n v ++ rest) out shift ≡ done (out + v * 2 ^ shift, rest)
get_from-put_from zero v out shift rest k fits turns room = absurd (omega arith)
get_from-put_from (suc n) v out shift rest k fits turns room = elim (dec_lt v 128) [
  | yes h ↦ rw (put_from_last n v h) (last_byte v out shift rest h k fits)
  | no h ↦
      let more = put_from_more n v (omega arith) in
      let g = v % 128 in
      let seven = shift_by_seven shift in
      let sum = groups v shift in
      let top = product-le g 127 (2 ^ shift) (omega arith) in
      let wide = product-le 128 v (2 ^ shift) (omega arith) in
      let next = exponent-lt (shift + 7) (omega (arith, seven, wide)) in
      rw more (
        inner_byte g out shift (put_from n (v / 128) ++ rest) (omega arith) k next
          (omega (arith, sum))
        ∙ (get_from-put_from n (v / 128) (out + g * 2 ^ shift) (shift + 7) rest
              (omega (arith, seven, top)) (omega (arith, sum)) (omega arith) next
            ∙ ap (λ x. done (x, rest)) (omega (arith, sum))))
]

-- `get_varint` reads back the word that `put_varint` wrote, and leaves what follows it.
pub get_varint-put_varint :
    (v : ℕ) (rest : List ℕ) → IsU64 v → get_varint (put_varint v ++ rest) ≡ done (v, rest)
unfolding get_varint put_varint
get_varint-put_varint v rest h =
    get_from-put_from 10 v 0 0 rest (omega arith) (omega arith) (omega arith) (omega arith)
    ∙ ap (λ x. done (x, rest)) (omega arith)

put_from-IsByte : (turns v : ℕ) → All IsByte (put_from turns v)
unfolding put_from
put_from-IsByte zero v = tt
put_from-IsByte (suc turns) v = elim (Bool-cases (ltb v 0x80)) [
  | inl e ↦ rw e (omega arith, tt)
  | inr e ↦
      rw e (omega (arith, bit_or_top (v % 256) (omega arith)), put_from-IsByte turns (v / 2 ^ 7))
]

pub put_varint-IsByte : (v : ℕ) → All IsByte (put_varint v)
unfolding put_varint
put_varint-IsByte v = put_from-IsByte 10 v
