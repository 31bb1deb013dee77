-- ===== src/Codec/Blocks.antt =====
-- A block of a column comes back.
use volforge.Prelude.{
  ℕ, suc, ◌-◌, ◌*◌, ◌^◌, ◌≤◌, ◌<◌, ◌≡◌, refl, ap, ◌∙◌, subst, inl, inr, false, List, [], ◌∷◌, ◌++◌,
  map, arith, ltb, ◌==◌, if◌then◌else◌, Bool-cases, length, All, length-append, All-append,
}
use volforge.Codec.{IsByte, IsU64, done, wrapped_minus, put_varint, zigzag}
use volforge.Codec.Encoder.{
  pack, raw_block, block_bits, range_of, deltas_of, least_of, residuals_of, encode_block,
}
use volforge.Codec.Decoder.{raw_words, residuals_for, decode_block, get_byte}
use volforge.Codec.Packing.{pack_from-Packed}
use volforge.Codec.Varint.{zigzag-IsU64, unzigzag-zigzag, get_varint-put_varint, put_varint-IsByte}
use volforge.Codec.Scale.{Divides, values_of-residuals_of, deltas_of-IsU64, least_of-IsU64}
use volforge.Codec.Unpacking.{unpack-pack}
use volforge.Codec.Raw.{read_words-raw_block, raw_block-IsByte, length-raw_block}
use volforge.Codec.Width.{block_bits-cases}
use mathlib.Core.List.{append_assoc}

abbrev payload : ℕ → List ℕ → List ℕ
payload bits rs = if bits == 64 then raw_block rs else pack rs bits

narrow_tests :
    (bits : ℕ) → bits ≤ 56 → (ltb 64 bits ≡ false) × (bits == 64 ≡ false) × (ltb 56 bits ≡ false)
narrow_tests bits b = ground arith

narrow_block :
    (bits : ℕ) (rs rest : List ℕ)
    → bits ≤ 56
    → All (λ r. r < 2 ^ bits) rs
    → All IsByte rest
    → residuals_for bits (length rs) (payload bits rs ++ rest) ≡ done (rs, rest)
narrow_block bits rs rest b a h =
    let (wide, raw, packable) = narrow_tests bits b in
    rw (wide, raw, packable) (unpack-pack bits rs rest b a h)

wide_block :
    (rs rest : List ℕ)
    → All IsU64 rs
    → raw_words (length rs) (raw_block rs ++ rest) ≡ done (rs, rest)
wide_block rs rest a =
    let long : ltb (length (raw_block rs ++ rest)) (length rs * 8) ≡ false =
      ground (arith, length-append (raw_block rs) rest, length-raw_block rs) in
    rw long (read_words-raw_block rs rest a)

residuals_for-payload :
    (rs rest : List ℕ)
    → All IsU64 rs
    → All IsByte rest
    → (let bits = block_bits (range_of 0 rs) in
        residuals_for bits (length rs) (payload bits rs ++ rest) ≡ done (rs, rest))
residuals_for-payload rs rest a h = elim (block_bits-cases rs a) [
  | inl e ↦ rw e (wide_block rs rest a)
  | inr (b, fits) ↦ narrow_block (block_bits (range_of 0 rs)) rs rest b fits h
]

pack-IsByte :
    (bits : ℕ) (rs : List ℕ) → bits ≤ 56 → All (λ r. r < 2 ^ bits) rs → All IsByte (pack rs bits)
unfolding pack
pack-IsByte bits rs b a = elim (Bool-cases (bits == 0)) [
  | inl e ↦ rw e tt
  | inr e ↦ rw e ((pack_from-Packed bits 0 0 rs b (omega arith) (omega arith) a).bytes)
]

payload-IsByte :
    (rs : List ℕ)
    → All IsU64 rs
    → IsByte (block_bits (range_of 0 rs)) × All IsByte (payload (block_bits (range_of 0 rs)) rs)
payload-IsByte rs a = elim (block_bits-cases rs a) [
  | inl e ↦ rw e (omega arith, raw_block-IsByte rs)
  | inr (b, fits) ↦
      let bits = block_bits (range_of 0 rs) in
      let (wide, raw, packable) = narrow_tests bits b in
      rw raw (omega arith, pack-IsByte bits rs b fits)
]

length-deltas_of : (s previous : ℕ) (vs : List ℕ) → length (deltas_of s previous vs) ≡ length vs
unfolding deltas_of
length-deltas_of s previous [] = refl
length-deltas_of s previous (v ∷ vs) = ap suc (length-deltas_of s v vs)

length-map : (f : ℕ → ℕ) (xs : List ℕ) → length (map f xs) ≡ length xs
length-map f [] = refl
length-map f (x ∷ xs) = ap suc (length-map f xs)

residuals-IsU64 : (least : ℕ) (ds : List ℕ) → All IsU64 (residuals_of least ds)
residuals-IsU64 least [] = tt
residuals-IsU64 least (d ∷ ds) = (omega arith, residuals-IsU64 least ds)

-- A block that ends in more input.
module _ (s previous : ℕ) (vs : List ℕ) (h : 0 < s) (small : s ≤ 2 ^ 63)
    (d : Divides s previous vs) where
  block_least : IsU64 (least_of (2 ^ 63 - 1) (deltas_of s previous vs))
  block_least =
      least_of-IsU64 (2 ^ 63 - 1) (deltas_of s previous vs) (omega arith)
        (deltas_of-IsU64 s 0 h small (omega arith) previous vs d)

  pub encode_block-IsByte : All IsByte (encode_block s previous vs)
  unfolding encode_block
  encode_block-IsByte =
      let deltas = deltas_of s previous vs in
      let least = least_of (2 ^ 63 - 1) deltas in
      All-append IsByte (put_varint (zigzag least)) _ (put_varint-IsByte (zigzag least))
        (payload-IsByte (residuals_of least deltas) (residuals-IsU64 least deltas))

  pub decode_block-encode_block :
      (rest : List ℕ)
      → All IsByte rest
      → IsU64 previous
      → All IsU64 vs
      → decode_block s (length vs) previous (encode_block s previous vs ++ rest) ≡ done (vs, rest)
  unfolding encode_block get_byte
  decode_block-encode_block rest r p a =
      let deltas = deltas_of s previous vs in
      let least = least_of (2 ^ 63 - 1) deltas in
      let rs = residuals_of least deltas in
      let bits = block_bits (range_of 0 rs) in
      let count : length rs ≡ length vs =
        length-map (λ x. wrapped_minus x least) deltas ∙ length-deltas_of s previous vs in
      let head =
        get_varint-put_varint (zigzag least) ((bits ∷ payload bits rs) ++ rest)
          (zigzag-IsU64 least block_least) in
      let body =
        subst (λ n. residuals_for bits n (payload bits rs ++ rest) ≡ done (rs, rest)) count
          (residuals_for-payload rs rest (residuals-IsU64 least deltas) r) in
      let values = values_of-residuals_of s least h small block_least previous vs p a d in
      rw
        (
          append_assoc (put_varint (zigzag least)) (bits ∷ payload bits rs) rest,
          head,
          body,
          unzigzag-zigzag least block_least,
          values,
        )
        refl
