-- ===== src/Codec.antt =====
-- The column codec: cpp/store/include/volforge/codec.hpp and cpp/store/src/codec.cpp. Bytes and
-- 64-bit words are numbers. An `int64_t` is its bit pattern, so that a cast to `uint64_t` and back is
-- nothing; a shift to the left, a sum, a difference and a product wrap at 64 bits.
pub mod Encoder
pub mod Decoder
pub mod Varint
pub mod Scale
pub mod Outcome
pub mod Packing
pub mod Unpacking
pub mod Raw
pub mod Width
pub mod Blocks
pub mod RoundTrip
pub mod Safety
use Prim.Native.Nat.{bit_and, bit_or, bit_xor}
use volforge.Prelude.{
  ℕ, zero, suc, ◌+◌, ◌-◌, ◌*◌, ◌/◌, ◌%◌, ◌^◌, ◌≤◌, ◌<◌, ◌≡◌, refl, sym, ap, ◌∙◌, subst, ◌≢◌, ◌↔◌,
  ◌⊎◌, inl, inr, Bool, true, false, not, ◌&&◌, ◌||◌, Option, none, some, List, [], ◌∷◌, ◌++◌, map,
  arith, ltb, leb, ◌==◌, if◌then◌else◌, ltb→lt, leb→le, ==_iff, Bool-cases, Option-cases, length,
  get_elem?, set, take, drop, replicate, filter_by, All, length-append, All-append, All-left,
  All-right, All-map, length-set, get_elem?-set_self, get_elem?-set_ne, get_elem?-All, ℤ, pos,
  negsuc, pos_part, neg_part, sub_ℕ, ◌+ℤ◌, ◌-ℤ◌, ◌*ℤ◌, neg, abs, ◌≤ℤ◌, ◌<ℤ◌, ltb_ℤ, leb_ℤ, eqb_ℤ,
  max_ℤ, min_ℤ, div_ℤ, +ℤ_parts, -ℤ_parts, neg_parts, eq_of_parts, eqb_ℤ_iff, eqb_ℤ_refl, int_laws,
  parts_of_eq, Error, Result, ok, err, ◌>>=◌, ◌>>◌, throw_if, or_throw, Result-cases, ok-injective,
  bind_ok, Safe, Safe-bind, Safe-map, Safe_of_ok, throw_if-Safe, is_fault, get_elem?-lt,
  get_elem?-append_left, get_elem?-snoc, get_elem?-snoc_cases, Returns, Returns-bind, Returns-then,
  Returns-map, Returns_of_ok, is_ok, returned, if_both,
}

abbrev pub IsByte : ℕ → Type 0
IsByte b = b < 256

abbrev pub IsU64 : ℕ → Type 0
IsU64 v = v < 2 ^ 64

abbrev pub word : ℕ → ℕ
word n = n % 2 ^ 64

abbrev pub ones : ℕ
ones = 2 ^ 64 - 1

-- `~v`.
abbrev pub complement : ℕ → ℕ
complement v = ones - v

abbrev pub wrapped_minus : ℕ → ℕ → ℕ
wrapped_minus a b = word (a + 2 ^ 64 - b)

-- Whether the pattern stands for a number below 0.
abbrev pub is_negative : ℕ → Bool
is_negative v = leb (2 ^ 63) v

-- `zigzag` and `unzigzag`. `v >> 63` is all sign bits.
unfoldable pub zigzag : ℕ → ℕ
zigzag v = bit_xor (word (v * 2)) (if is_negative v then ones else 0)

unfoldable pub unzigzag : ℕ → ℕ
unzigzag v = bit_xor (v / 2) (word (complement (bit_and v 1) + 1))

-- What a read of the input gives: a value, the `false` or 0 of malformed input, or an access past
-- the end of the input.
pub data Decoded {ℓ} (A : Type ℓ) : Type ℓ where
  malformed overrun : Decoded A
  done : A → Decoded A

infixl 5 ◌>>>=◌
abbrev pub ◌>>>=◌ {ℓ κ} : {A : Type ℓ} {B : Type κ} → Decoded A → (A → Decoded B) → Decoded B
malformed >>>= next = malformed
overrun >>>= next = overrun
done a >>>= next = next a

-- `put_varint`: what it appends. A word has ten groups of seven bits at most, so that ten turns of
-- the loop are enough.
unfoldable pub put_from : ℕ → ℕ → List ℕ
put_from zero v = []
put_from (suc turns) v =
    let more = put_from turns (v / 2 ^ 7) in
    if ltb v 0x80 then (v % 256) ∷ [] else bit_or (v % 256) 0x80 ∷ more

unfoldable pub put_varint : ℕ → List ℕ
unfolding put_from
put_varint v = put_from 10 v

-- `get_varint`, with what has been read and the shift: the value, and the input that is left.
unfoldable pub get_from : List ℕ → ℕ → ℕ → Decoded (ℕ × List ℕ)
get_from [] out shift = malformed
get_from (b ∷ bs) out shift =
    let out' = bit_or out (word (bit_and b 0x7f * 2 ^ shift)) in
    let more = get_from bs out' (shift + 7) in
    if bit_and b 0x80 == 0 then done (out', bs) else if ltb 63 (shift + 7) then malformed else more

unfoldable pub get_varint : List ℕ → Decoded (ℕ × List ℕ)
unfolding get_from
get_varint bs = get_from bs 0 0

abbrev pub block_size : ℕ
block_size = 128

abbrev pub max_packed_bits : ℕ
max_packed_bits = 56

-- `(bits == 64) ? ~0ULL : ((1ULL << bits) - 1)`.
abbrev pub mask_of : ℕ → ℕ
mask_of bits = if bits == 64 then ones else word (2 ^ bits) - 1

abbrev pub packed_bytes : ℕ → ℕ → ℕ
packed_bytes n bits = (n * bits + 7) / 8
