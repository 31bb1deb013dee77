-- ===== src/Codec/Safety.antt =====
-- `decode_column` on any input: no access past its end, and as many values as the count says.
use volforge.Prelude.{
  ℕ, zero, suc, ◌+◌, ◌-◌, ◌*◌, ◌^◌, ◌≤◌, ◌≡◌, refl, sym, ap, ◌∙◌, inl, inr, false, List, [], ◌∷◌,
  arith, ltb, ◌==◌, if◌then◌else◌, ==_iff, Bool-cases, length, drop, replicate, length-append,
}
use Prim.Native.Nat.{bit_and, bit_or}
use volforge.Codec.{
  word, overrun, Decoded, malformed, done, ◌>>>=◌, block_size, get_from, get_varint, unzigzag,
  packed_bytes, max_packed_bits,
}
use volforge.Codec.Outcome.{Within, Within-bind, Within-map, Within_if}
use volforge.Codec.Decoder.{
  refill, unpack_from, unpack, read_word, read_words, raw_words, residuals_for, values_of, get_byte,
  decode_block, last_value, smaller_of, decode_blocks, get_scale, decode_values, decode_column,
  peek_column_count,
}
use native.Mathlib.Nat.{mul-suc}

-- `n` values, and no more input than there was.
abbrev Ends : ℕ → List ℕ → List ℕ × List ℕ → Type 0
Ends n bs s = (length s.0 ≡ n) × (length s.1 ≤ length bs)

abbrev Shorter : List ℕ → ℕ × List ℕ → Type 0
Shorter bs s = length s.1 ≤ length bs

get_from-Shorter : (bs : List ℕ) (out shift : ℕ) → Within (get_from bs out shift) (Shorter bs)
unfolding get_from
get_from-Shorter [] out shift = tt
get_from-Shorter (b ∷ bs) out shift =
    let out' = bit_or out (word (bit_and b 0x7f * 2 ^ shift)) in
    let more = get_from bs out' (shift + 7) in
    let rest =
      Within-map (Shorter bs) (Shorter (b ∷ bs)) (λ s h. omega (arith, h)) more
        (get_from-Shorter bs out' (shift + 7)) in
    Within_if (Shorter (b ∷ bs)) (done (out', bs)) _ (bit_and b 0x80 == 0) (λ e. omega arith)
      (λ e. Within_if (Shorter (b ∷ bs)) malformed more (ltb 63 (shift + 7)) (λ k. tt) (λ k. rest))

get_varint-Shorter : (bs : List ℕ) → Within (get_varint bs) (Shorter bs)
unfolding get_varint
get_varint-Shorter bs = get_from-Shorter bs 0 0

-- What `refill` gives, as to its length.
abbrev Enough : ℕ → ℕ → List ℕ → ℕ × ℕ × List ℕ → Type 0
Enough bits held bs s = (bits ≤ s.1) × (s.1 + 8 * length s.2 ≡ held + 8 * length bs)

refill-Enough :
    (bits : ℕ) (bs : List ℕ) (acc held : ℕ)
    → bits ≤ held + 8 * length bs
    → Within (refill bits bs acc held) (Enough bits held bs)
unfolding refill
refill-Enough bits [] acc held h = elim (Bool-cases (ltb held bits)) [
  | inl e ↦ absurd (ground arith)
  | inr e ↦ rw e (ground arith, refl)
]
refill-Enough bits (b ∷ bs) acc held h =
    Within_if (Enough bits held (b ∷ bs)) _ _ (ltb held bits)
      (λ e.
        Within-map (Enough bits (held + 8) bs) (Enough bits held (b ∷ bs))
          (λ s (enough, count). (enough, omega (arith, count))) _
          (refill-Enough bits bs (bit_or acc (word (b * 2 ^ held))) (held + 8) (omega (arith, h))))
      (λ e. (ground arith, refl))

unpack_from-count :
    (bits n acc held : ℕ) (bs : List ℕ)
    → bits * n ≤ held + 8 * length bs
    → Within (unpack_from bits n acc held bs) (λ vs. length vs ≡ n)
unfolding unpack_from
unpack_from-count bits zero acc held bs h = refl
unpack_from-count bits (suc n) acc held bs h =
    let step = mul-suc bits n in
    Within-bind (Enough bits held bs) (λ vs. length vs ≡ suc n) (refill bits bs acc held) _
      (refill-Enough bits bs acc held (omega (arith, h, step)))
      (λ s (enough, count).
        Within-bind (λ vs. length vs ≡ n) (λ vs. length vs ≡ suc n) _ _
          (unpack_from-count bits n _ (s.1 - bits) s.2 (omega (arith, h, step, enough, count)))
          (λ vs e. ap suc e))

length-replicate : (n x : ℕ) → length (replicate n x) ≡ n
length-replicate zero x = refl
length-replicate (suc n) x = ap suc (length-replicate n x)

drop-shorter : (n : ℕ) (xs : List ℕ) → length (drop n xs) ≤ length xs
drop-shorter zero xs = omega arith
drop-shorter (suc n) [] = omega arith
drop-shorter (suc n) (x ∷ xs) = omega (arith, drop-shorter n xs)

enough_bytes :
    (n bits given : ℕ) → ltb given (packed_bytes n bits) ≡ false → bits * n ≤ 0 + 8 * given
enough_bytes n bits given e =
    let room : packed_bytes n bits ≤ given = ground arith in omega (arith, room)

unpack-Ends : (bs : List ℕ) (n bits : ℕ) → Within (unpack bs n bits) (Ends n bs)
unfolding unpack
unpack-Ends bs n bits =
    let need = packed_bytes n bits in
    let values : Decoded (List ℕ × List ℕ) =
      unpack_from bits n 0 0 bs >>>= λ vs. done (vs, drop need bs) in
    Within_if (Ends n bs) (done (replicate n 0, bs))
      (if ltb (length bs) need then malformed else values) (bits == 0)
      (λ e. (length-replicate n 0, omega arith))
      (λ e.
        Within_if (Ends n bs) malformed values (ltb (length bs) need) (λ short. tt)
          (λ long.
            Within-bind (λ vs. length vs ≡ n) (Ends n bs) (unpack_from bits n 0 0 bs) _
              (unpack_from-count bits n 0 0 bs (enough_bytes n bits (length bs) long))
              (λ vs count. (count, drop-shorter need bs))))

read_word-count :
    (k b v : ℕ) (bs : List ℕ)
    → k ≤ length bs
    → Within (read_word k b v bs) (λ s. length s.1 + k ≡ length bs)
unfolding read_word
read_word-count zero b v bs h = omega arith
read_word-count (suc k) b v [] h = absurd (omega arith)
read_word-count (suc k) b v (x ∷ bs) h =
    Within-map (λ s. length s.1 + k ≡ length bs) (λ s. length s.1 + suc k ≡ suc (length bs))
      (λ s e. omega (arith, e)) _ (read_word-count k (b + 1) _ bs (omega (arith, h)))

read_words-Ends : (n : ℕ) (bs : List ℕ) → n * 8 ≤ length bs → Within (read_words n bs) (Ends n bs)
unfolding read_words
read_words-Ends zero bs h = (refl, omega arith)
read_words-Ends (suc n) bs h =
    Within-bind (λ s. length s.1 + 8 ≡ length bs) (Ends (suc n) bs) (read_word 8 0 0 bs) _
      (read_word-count 8 0 0 bs (omega (arith, h)))
      (λ s e.
        Within-bind (Ends n s.1) (Ends (suc n) bs) (read_words n s.1) _
          (read_words-Ends n s.1 (omega (arith, h, e)))
          (λ t (count, rest). (ap suc count, omega (arith, rest, e))))

raw_words-Ends : (n : ℕ) (bs : List ℕ) → Within (raw_words n bs) (Ends n bs)
raw_words-Ends n bs =
    Within_if (Ends n bs) malformed (read_words n bs) (ltb (length bs) (n * 8)) (λ short. tt)
      (λ long. read_words-Ends n bs (ground arith))

residuals_for-Ends : (bits n : ℕ) (bs : List ℕ) → Within (residuals_for bits n bs) (Ends n bs)
residuals_for-Ends bits n bs =
    Within_if (Ends n bs) malformed _ (ltb 64 bits) (λ e. tt)
      (λ e.
        Within_if (Ends n bs) (raw_words n bs) _ (bits == 64) (λ raw. raw_words-Ends n bs)
          (λ packed.
            Within_if (Ends n bs) malformed (unpack bs n bits) (ltb max_packed_bits bits)
              (λ wide. tt) (λ narrow. unpack-Ends bs n bits)))

length-values_of :
    (scale least previous : ℕ) (rs : List ℕ)
    → length (values_of scale least previous rs) ≡ length rs
unfolding values_of
length-values_of scale least previous [] = refl
length-values_of scale least previous (r ∷ rs) = ap suc (
    length-values_of scale least
      (word (previous + (if scale == 1 then word (r + least) else word (word (r + least) * scale))))
      rs)

get_byte-Shorter : (bs : List ℕ) → Within (get_byte bs) (Shorter bs)
unfolding get_byte
get_byte-Shorter [] = tt
get_byte-Shorter (b ∷ bs) = omega arith

decode_block-Ends :
    (scale n previous : ℕ) (bs : List ℕ) → Within (decode_block scale n previous bs) (Ends n bs)
decode_block-Ends scale n previous bs =
    Within-bind (Shorter bs) (Ends n bs) (get_varint bs) _ (get_varint-Shorter bs) (λ least h.
      Within-bind (Shorter least.1) (Ends n bs) (get_byte least.1) _ (get_byte-Shorter least.1)
        (λ width k.
          Within-bind (Ends n width.1) (Ends n bs) (residuals_for width.0 n width.1) _
            (residuals_for-Ends width.0 n width.1)
            (λ rs (count, rest). (
              length-values_of scale (unzigzag least.0) previous rs.0 ∙ count,
              omega (arith, rest, k, h),
            ))))

decode_blocks-Ends :
    (fuel scale left previous : ℕ) (bs : List ℕ)
    → left ≤ fuel
    → Within (decode_blocks fuel scale left previous bs) (Ends left bs)
unfolding decode_blocks
decode_blocks-Ends zero scale left previous bs h = (omega arith, omega arith)
decode_blocks-Ends (suc fuel) scale left previous bs h =
    let n = smaller_of block_size left in
    Within_if (Ends left bs) (done ([], bs)) _ (left == 0)
      (λ e. ((sym ((==_iff left 0).0 e)), omega arith))
      (λ e.
        let less : (n ≤ left) × (left - n ≤ fuel) = ground arith in
        Within-bind (Ends n bs) (Ends left bs) (decode_block scale n previous bs) _
          (decode_block-Ends scale n previous bs)
          (λ block (count, rest).
            Within-bind (Ends (left - n) block.1) (Ends left bs) _ _
              (decode_blocks-Ends fuel scale (left - n) (last_value previous block.0) block.1
                less.1)
              (λ others (more, rest'). (
                length-append block.0 others.0 ∙ omega (arith, count, more, less.0),
                omega (arith, rest, rest'),
              ))))

get_scale-Shorter : (bs : List ℕ) → Within (get_scale bs) (Shorter bs)
get_scale-Shorter bs =
    Within-bind (Shorter bs) (Shorter bs) (get_varint bs) _ (get_varint-Shorter bs)
      (λ s h. Within_if (Shorter bs) malformed (done s) (s.0 == 0) (λ e. tt) (λ e. h))

decode_values-Ends : (n : ℕ) (bs : List ℕ) → Within (decode_values n bs) (Ends n bs)
decode_values-Ends zero bs = (refl, omega arith)
decode_values-Ends (suc n) bs =
    Within-bind (Shorter bs) (Ends (suc n) bs) (get_varint bs) _ (get_varint-Shorter bs) (λ first h.
      Within-bind (Shorter first.1) (Ends (suc n) bs) (get_scale first.1) _
        (get_scale-Shorter first.1)
        (λ scale k.
          Within-bind (Ends n scale.1) (Ends (suc n) bs) _ _
            (decode_blocks-Ends n scale.0 n (unzigzag first.0) scale.1 (omega arith))
            (λ rest (count, less). (ap suc count, omega (arith, less, k, h)))))

-- On any input, `decode_column` does not read past its end. Where it gives values, they are as many
-- as `peek_column_count` says, and what is left is no longer than the input.
pub decode_column-Within :
    (bs : List ℕ)
    → Within
        (decode_column bs)
        (λ s. (length s.0 ≡ peek_column_count bs) × (length s.1 ≤ length bs))
unfolding decode_column peek_column_count
decode_column-Within bs = counted (get_varint bs) (get_varint-Shorter bs)
  where
    counted :
        (r : Decoded (ℕ × List ℕ))
        → Within r (Shorter bs)
        → Within (r >>>= λ count. decode_values count.0 count.1) (λ s.
          (length s.0 ≡ elim r [ malformed ↦ 0 | overrun ↦ 0 | done c ↦ c.0 ])
          × (length s.1 ≤ length bs))
    counted malformed h = tt
    counted overrun h = h
    counted (done c) h =
        Within-map (Ends c.0 c.1) _ (λ s (count, less). (count, omega (arith, less, h))) _
          (decode_values-Ends c.0 c.1)
