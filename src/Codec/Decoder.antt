-- ===== src/Codec/Decoder.antt =====
-- `decode_column` and what it calls.
use Prim.Native.Nat.{bit_and, bit_or}
use volforge.Prelude.{
  ℕ, zero, suc, ◌+◌, ◌-◌, ◌*◌, ◌/◌, ◌^◌, List, [], ◌∷◌, ◌++◌, ltb, ◌==◌, if◌then◌else◌, length,
  drop, replicate,
}
use volforge.Codec.{
  Decoded, malformed, overrun, done, ◌>>>=◌, word, unzigzag, get_varint, block_size,
  max_packed_bits, mask_of, packed_bytes,
}

-- The inner loop of `unpack`: the accumulator, its length, and the input that is left.
unfoldable pub refill : ℕ → List ℕ → ℕ → ℕ → Decoded (ℕ × ℕ × List ℕ)
refill bits [] acc held = if ltb held bits then overrun else done (acc, held, [])
refill bits (b ∷ bs) acc held =
    let more = refill bits bs (bit_or acc (word (b * 2 ^ held))) (held + 8) in
    if ltb held bits then more else done (acc, held, b ∷ bs)

unfoldable pub unpack_from : ℕ → ℕ → ℕ → ℕ → List ℕ → Decoded (List ℕ)
unpack_from bits zero acc held bs = done []
unpack_from bits (suc n) acc held bs = refill bits bs acc held >>>= λ s.
    unpack_from bits n (s.0 / 2 ^ bits) (s.1 - bits) s.2 >>>= λ vs.
    done (bit_and s.0 (mask_of bits) ∷ vs)

-- `unpack`.
unfoldable pub unpack : List ℕ → ℕ → ℕ → Decoded (List ℕ × List ℕ)
unfolding unpack_from refill
unpack bs n bits =
    let need = packed_bytes n bits in
    if bits == 0
    then done (replicate n 0, bs)
    else if ltb (length bs) need
    then malformed
    else (unpack_from bits n 0 0 bs >>>= λ vs. done (vs, drop need bs))

-- Eight bytes, from byte `b` on.
unfoldable pub read_word : ℕ → ℕ → ℕ → List ℕ → Decoded (ℕ × List ℕ)
read_word zero b v bs = done (v, bs)
read_word (suc k) b v [] = overrun
read_word (suc k) b v (x ∷ bs) = read_word k (b + 1) (bit_or v (word (x * 2 ^ (8 * b)))) bs

unfoldable pub read_words : ℕ → List ℕ → Decoded (List ℕ × List ℕ)
read_words zero bs = done ([], bs)
read_words (suc n) bs =
    read_word 8 0 0 bs >>>= λ s. read_words n s.1 >>>= λ t. done (s.0 ∷ t.0, t.1)

abbrev pub raw_words : ℕ → List ℕ → Decoded (List ℕ × List ℕ)
raw_words n bs = if ltb (length bs) (n * 8) then malformed else read_words n bs

abbrev pub residuals_for : ℕ → ℕ → List ℕ → Decoded (List ℕ × List ℕ)
residuals_for bits n bs =
    if ltb 64 bits
    then malformed
    else if bits == 64
    then raw_words n bs
    else if ltb max_packed_bits bits
    then malformed
    else unpack bs n bits

-- The values of a block.
unfoldable pub values_of : ℕ → ℕ → ℕ → List ℕ → List ℕ
values_of scale least previous [] = []
values_of scale least previous (r ∷ rs) =
    let delta = word (r + least) in
    let scaled = if scale == 1 then delta else word (delta * scale) in
    let v = word (previous + scaled) in v ∷ values_of scale least v rs

-- The byte that holds the width.
unfoldable pub get_byte : List ℕ → Decoded (ℕ × List ℕ)
get_byte [] = malformed
get_byte (b ∷ bs) = done (b, bs)

abbrev pub decode_block : ℕ → ℕ → ℕ → List ℕ → Decoded (List ℕ × List ℕ)
decode_block scale n previous bs = get_varint bs >>>= λ least. get_byte least.1 >>>= λ width.
    residuals_for width.0 n width.1 >>>= λ residuals.
    done (values_of scale (unzigzag least.0) previous residuals.0, residuals.1)

abbrev pub last_value : ℕ → List ℕ → ℕ
last_value previous [] = previous
last_value previous (v ∷ vs) = last_value v vs

abbrev pub smaller_of : ℕ → ℕ → ℕ
smaller_of a b = if ltb b a then b else a

-- The loop over the blocks, with `left` values to go. Each turn takes a value, so that as much fuel
-- is enough.
unfoldable pub decode_blocks : ℕ → ℕ → ℕ → ℕ → List ℕ → Decoded (List ℕ × List ℕ)
decode_blocks zero scale left previous bs = done ([], bs)
decode_blocks (suc fuel) scale left previous bs =
    let n = smaller_of block_size left in
    let turn = decode_block scale n previous bs >>>= λ block.
    decode_blocks fuel scale (left - n) (last_value previous block.0) block.1 >>>= λ rest.
    done (block.0 ++ rest.0, rest.1) in
    if left == 0 then done ([], bs) else turn

-- A scale of 0 is refused.
abbrev pub get_scale : List ℕ → Decoded (ℕ × List ℕ)
get_scale bs = get_varint bs >>>= λ s. if s.0 == 0 then malformed else done s

abbrev pub decode_values : ℕ → List ℕ → Decoded (List ℕ × List ℕ)
decode_values zero bs = done ([], bs)
decode_values (suc left) bs = get_varint bs >>>= λ first. get_scale first.1 >>>= λ scale.
    decode_blocks left scale.0 left (unzigzag first.0) scale.1 >>>= λ rest.
    done (unzigzag first.0 ∷ rest.0, rest.1)

-- `decode_column`: the values, and the input that is left.
unfoldable pub decode_column : List ℕ → Decoded (List ℕ × List ℕ)
unfolding decode_blocks
decode_column bs = get_varint bs >>>= λ count. decode_values count.0 count.1

-- `peek_column_count`.
unfoldable pub peek_column_count : List ℕ → ℕ
peek_column_count bs = elim (get_varint bs) [ malformed ↦ 0 | overrun ↦ 0 | done s ↦ s.0 ]
