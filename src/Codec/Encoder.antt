-- ===== src/Codec/Encoder.antt =====
-- `encode_column` and what it calls: what each appends to the output.
use Prim.Native.Nat.{bit_and, bit_or, max}
use volforge.Prelude.{
  ℕ, zero, suc, ◌+◌, ◌-◌, ◌*◌, ◌/◌, ◌%◌, ◌^◌, Bool, List, [], ◌∷◌, ◌++◌, map, ltb, ◌==◌,
  if◌then◌else◌, length, take, drop,
}
use volforge.Codec.{
  word, complement, wrapped_minus, is_negative, zigzag, put_varint, block_size, max_packed_bits,
  mask_of,
}

-- `gcd_of`. The second number falls at each turn.
unfoldable pub gcd_from : ℕ → ℕ → ℕ → ℕ
gcd_from zero a b = a
gcd_from (suc turns) a b = let next = gcd_from turns b (a % b) in if b == 0 then a else next

unfoldable pub gcd_of : ℕ → ℕ → ℕ
unfolding gcd_from
gcd_of a b = gcd_from (b + 1) a b

-- `bits_for`. A word has 64 bits.
unfoldable pub bits_from : ℕ → ℕ → ℕ
bits_from zero range = 0
bits_from (suc turns) range =
    let rest = bits_from turns (range / 2) in if range == 0 then 0 else suc rest

unfoldable pub bits_for : ℕ → ℕ
unfolding bits_from
bits_for range = bits_from 64 range

-- The inner loop of `pack`: the bytes that are full, and the accumulator and its length after it.
unfoldable pub flush_from : ℕ → ℕ → ℕ → List ℕ × ℕ × ℕ
flush_from zero acc held = ([], acc, held)
flush_from (suc turns) acc held =
    let next = flush_from turns (acc / 2 ^ 8) (held - 8) in
    if ltb held 8 then ([], acc, held) else (bit_and acc 0xff ∷ next.0, next.1, next.2)

unfoldable pub flush : ℕ → ℕ → List ℕ × ℕ × ℕ
unfolding flush_from
flush acc held = flush_from held acc held

unfoldable pub pack_from : ℕ → ℕ → ℕ → List ℕ → List ℕ
pack_from bits acc held [] = if ltb 0 held then bit_and acc 0xff ∷ [] else []
pack_from bits acc held (v ∷ vs) =
    let (out, acc', held') =
      flush (bit_or acc (word (bit_and v (mask_of bits) * 2 ^ held))) (held + bits) in
    out ++ pack_from bits acc' held' vs

-- `pack`.
unfoldable pub pack : List ℕ → ℕ → List ℕ
pack vs bits = if bits == 0 then [] else pack_from bits 0 0 vs

abbrev pub magnitude : ℕ → ℕ
magnitude d = if is_negative d then word (complement d + 1) else d

-- The common divisor of the deltas. The loop ends where it is 1.
unfoldable pub scale_from : ℕ → ℕ → List ℕ → ℕ
scale_from scale previous [] = scale
scale_from scale previous (v ∷ vs) =
    let next = scale_from (gcd_of scale (magnitude (wrapped_minus v previous))) v vs in
    if scale == 1 then scale else next

unfoldable pub scale_of : ℕ → List ℕ → ℕ
unfolding scale_from
scale_of first vs = let scale = scale_from 0 first vs in if scale == 0 then 1 else scale

-- `a / b` on `int64_t`: the quotient of the magnitudes, negative where the signs differ.
abbrev pub signed_div : ℕ → ℕ → ℕ
signed_div a b =
    let q = magnitude a / magnitude b in
    if is_negative a
    then (if is_negative b then q else word (2 ^ 64 - q))
    else if is_negative b
    then word (2 ^ 64 - q)
    else q

abbrev pub divided : ℕ → ℕ → ℕ
divided scale raw = if scale == 1 then raw else signed_div raw scale

unfoldable pub deltas_of : ℕ → ℕ → List ℕ → List ℕ
deltas_of scale previous [] = []
deltas_of scale previous (v ∷ vs) = divided scale (wrapped_minus v previous) ∷ deltas_of scale v vs

-- `a < b` on `int64_t`.
abbrev pub signed_lt : ℕ → ℕ → Bool
signed_lt a b = ltb (word (a + 2 ^ 63)) (word (b + 2 ^ 63))

unfoldable pub least_of : ℕ → List ℕ → ℕ
least_of least [] = least
least_of least (d ∷ ds) = least_of (if signed_lt d least then d else least) ds

unfoldable pub range_of : ℕ → List ℕ → ℕ
range_of range [] = range
range_of range (r ∷ rs) = range_of (max range r) rs

abbrev pub residuals_of : ℕ → List ℕ → List ℕ
residuals_of least = map (λ d. wrapped_minus d least)

abbrev pub block_bits : ℕ → ℕ
block_bits range = let bits = bits_for range in if ltb max_packed_bits bits then 64 else bits

-- The bytes of a word from byte `b` on, for the `k` that are left.
unfoldable pub raw_bytes : ℕ → ℕ → ℕ → List ℕ
raw_bytes zero b v = []
raw_bytes (suc k) b v = bit_and (v / 2 ^ (8 * b)) 0xff ∷ raw_bytes k (b + 1) v

unfoldable pub raw_block : List ℕ → List ℕ
raw_block [] = []
raw_block (r ∷ rs) = raw_bytes 8 0 r ++ raw_block rs

-- One turn of the loop over the blocks, for the values of the block.
unfoldable pub encode_block : ℕ → ℕ → List ℕ → List ℕ
unfolding deltas_of least_of range_of raw_block pack
encode_block scale previous vs =
    let deltas = deltas_of scale previous vs in
    let least = least_of (2 ^ 63 - 1) deltas in
    let residuals = residuals_of least deltas in
    let bits = block_bits (range_of 0 residuals) in
    put_varint (zigzag least)
    ++ (bits ∷ (if bits == 64 then raw_block residuals else pack residuals bits))

unfoldable pub last_of : ℕ → List ℕ → ℕ
last_of previous [] = previous
last_of previous (v ∷ vs) = last_of v vs

-- The loop over the blocks. Each turn takes a value, so that the values are fuel enough.
unfoldable pub encode_blocks : ℕ → ℕ → ℕ → List ℕ → List ℕ
encode_blocks zero scale previous vs = []
encode_blocks (suc fuel) scale previous [] = []
encode_blocks (suc fuel) scale previous (v ∷ vs) =
    let block = take block_size (v ∷ vs) in
    encode_block scale previous block
    ++ encode_blocks fuel scale (last_of previous block) (drop block_size (v ∷ vs))

-- `encode_column`.
unfoldable pub encode_column : List ℕ → List ℕ
unfolding scale_of encode_blocks
encode_column [] = put_varint 0
encode_column (v ∷ vs) =
    let scale = scale_of v vs in
    put_varint (length (v ∷ vs))
    ++ (put_varint (zigzag v) ++ (put_varint scale ++ encode_blocks (length vs) scale v vs))
