-- ===== src/Codec/RoundTrip.antt =====
-- `decode_column` reads back what `encode_column` wrote.
use volforge.Prelude.{
  ℕ, zero, suc, ◌-◌, ◌^◌, ◌≤◌, ◌<◌, ◌≡◌, refl, sym, ap, subst, false, List, [], ◌∷◌, ◌++◌, arith,
  ◌==◌, length, take, drop, All, All-append,
}
use volforge.Codec.{IsByte, IsU64, done, block_size, put_varint, zigzag}
use volforge.Codec.Encoder.{encode_block, encode_blocks, encode_column, last_of, scale_of}
use volforge.Codec.Decoder.{decode_block, decode_blocks, decode_column, last_value, smaller_of}
use volforge.Codec.Varint.{zigzag-IsU64, unzigzag-zigzag, get_varint-put_varint, put_varint-IsByte}
use volforge.Codec.Scale.{Divides, scale_of-IsScale}
use volforge.Codec.Blocks.{encode_block-IsByte, decode_block-encode_block}
use mathlib.Core.List.{append_assoc}

module _ {A : Type 0} where
  length-take : (n : ℕ) (xs : List A) → length (take n xs) ≡ smaller_of n (length xs)
  length-take zero xs = ground arith
  length-take (suc n) [] = ground arith
  length-take (suc n) (x ∷ xs) = ground (arith, length-take n xs)

  length-drop : (n : ℕ) (xs : List A) → length (drop n xs) ≡ length xs - smaller_of n (length xs)
  length-drop zero xs = ground arith
  length-drop (suc n) [] = omega arith
  length-drop (suc n) (x ∷ xs) = ground (arith, length-drop n xs)

  take-drop : (n : ℕ) (xs : List A) → take n xs ++ drop n xs ≡ xs
  take-drop zero xs = refl
  take-drop (suc n) [] = refl
  take-drop (suc n) (x ∷ xs) = ap (λ (ys : List A). x ∷ ys) (take-drop n xs)

  All-take :
      (P : A → Type 0) (n : ℕ) (xs : List A) → All P xs → All P (take n xs) × All P (drop n xs)
  All-take P zero xs a = (tt, a)
  All-take P (suc n) [] a = (tt, tt)
  All-take P (suc n) (x ∷ xs) (a, as') = let (t, d) = All-take P n xs as' in ((a, t), d)

Divides-take :
    (s previous n : ℕ) (vs : List ℕ)
    → Divides s previous vs
    → Divides s previous (take n vs) × Divides s (last_of previous (take n vs)) (drop n vs)
unfolding last_of
Divides-take s previous zero vs d = (tt, d)
Divides-take s previous (suc n) [] d = (tt, tt)
Divides-take s previous (suc n) (v ∷ vs) (d, ds) =
    let (t, r) = Divides-take s v n vs ds in ((d, t), r)

last_of-IsU64 :
    (previous : ℕ) (vs : List ℕ) → IsU64 previous → All IsU64 vs → IsU64 (last_of previous vs)
unfolding last_of
last_of-IsU64 previous [] h a = h
last_of-IsU64 previous (v ∷ vs) h (a, as') = last_of-IsU64 v vs a as'

last_value-last_of : (previous : ℕ) (vs : List ℕ) → last_value previous vs ≡ last_of previous vs
unfolding last_of
last_value-last_of previous [] = refl
last_value-last_of previous (v ∷ vs) = last_value-last_of v vs

module _ (s : ℕ) (h : 0 < s) (small : s ≤ 2 ^ 63) where
  encode_blocks-IsByte :
      (fuel previous : ℕ) (vs : List ℕ)
      → Divides s previous vs
      → All IsByte (encode_blocks fuel s previous vs)
  unfolding encode_blocks
  encode_blocks-IsByte zero previous vs d = tt
  encode_blocks-IsByte (suc fuel) previous [] d = tt
  encode_blocks-IsByte (suc fuel) previous (v ∷ vs) d =
      let xs = v ∷ vs in
      let (t, r) = Divides-take s previous block_size xs d in
      All-append IsByte (encode_block s previous (take block_size xs)) _
        (encode_block-IsByte s previous (take block_size xs) h small t)
        (encode_blocks-IsByte fuel (last_of previous (take block_size xs)) (drop block_size xs) r)

  decode_blocks-encode_blocks :
      (fuel turns previous : ℕ) (vs rest : List ℕ)
      → length vs ≤ fuel
      → length vs ≤ turns
      → Divides s previous vs
      → All IsByte rest
      → IsU64 previous
      → All IsU64 vs
      → decode_blocks turns s (length vs) previous (encode_blocks fuel s previous vs ++ rest)
        ≡ done (vs, rest)
  unfolding encode_blocks decode_blocks
  decode_blocks-encode_blocks zero zero previous [] rest f t d r p a = refl
  decode_blocks-encode_blocks zero (suc turns) previous [] rest f t d r p a = refl
  decode_blocks-encode_blocks (suc fuel) zero previous [] rest f t d r p a = refl
  decode_blocks-encode_blocks (suc fuel) (suc turns) previous [] rest f t d r p a = refl
  decode_blocks-encode_blocks zero turns previous (v ∷ vs) rest f t d r p a = absurd (omega arith)
  decode_blocks-encode_blocks (suc fuel) zero previous (v ∷ vs) rest f t d r p a =
      absurd (omega arith)
  decode_blocks-encode_blocks (suc fuel) (suc turns) previous (v ∷ vs) rest f t d r p a =
      let xs = v ∷ vs in
      let block = take block_size xs in
      let later = drop block_size xs in
      let end = last_of previous block in
      let (dt, dd) = Divides-take s previous block_size xs d in
      let (at, ad) = All-take IsU64 block_size xs a in
      let others = encode_blocks fuel s end later in
      let count = length-take block_size xs in
      let left = length-drop block_size xs in
      let first =
        subst
          (λ n.
            decode_block s n previous (encode_block s previous block ++ (others ++ rest))
            ≡ done (block, others ++ rest))
          count
          (decode_block-encode_block s previous block h small dt (others ++ rest)
            (All-append IsByte others rest (encode_blocks-IsByte fuel end later dd) r) p at) in
      let some_left : length xs == 0 ≡ false = ground arith in
      let less : length later ≤ length vs = ground (arith, left) in
      let next =
        decode_blocks-encode_blocks fuel turns end later rest (omega (arith, less, f))
          (omega (arith, less, t)) dd r (last_of-IsU64 previous block p at) ad in
      let next' : decode_blocks turns s (length xs - smaller_of block_size (length xs))
            (last_value previous block) (others ++ rest)
          ≡ done (later, rest) =
        rw (sym left, last_value-last_of previous block) next in
      rw (append_assoc (encode_block s previous block) others rest, some_left, first, next')
        (ap (λ ys. done (ys, rest)) (take-drop block_size xs))

-- `decode_column` reads back the values that `encode_column` wrote and leaves what follows them,
-- where each value is a word, there are fewer than 2^64 of them, and bytes follow.
pub decode_column-encode_column :
    (vs rest : List ℕ)
    → All IsU64 vs
    → length vs < 2 ^ 64
    → All IsByte rest
    → decode_column (encode_column vs ++ rest) ≡ done (vs, rest)
unfolding decode_column encode_column
decode_column-encode_column [] rest a n r = rw (get_varint-put_varint 0 rest (omega arith)) refl
decode_column-encode_column (v ∷ vs) rest (a, as') n r =
    let s = scale_of v vs in
    let scale = scale_of-IsScale v vs in
    let blocks = encode_blocks (length vs) s v vs in
    let tail = put_varint s ++ blocks in
    let count =
      get_varint-put_varint (length (v ∷ vs)) ((put_varint (zigzag v) ++ tail) ++ rest) n in
    let first = get_varint-put_varint (zigzag v) (tail ++ rest) (zigzag-IsU64 v a) in
    let divisor = get_varint-put_varint s (blocks ++ rest) (omega (arith, scale.small)) in
    let some_scale : s == 0 ≡ false = ground (arith, scale.not_zero) in
    let values =
      decode_blocks-encode_blocks s scale.not_zero scale.small (length vs) (length vs) v vs rest
        (omega arith) (omega arith) scale.divides r a as' in
    rw
      (
        append_assoc (put_varint (length (v ∷ vs))) (put_varint (zigzag v) ++ tail) rest,
        count,
        append_assoc (put_varint (zigzag v)) tail rest,
        first,
        append_assoc (put_varint s) blocks rest,
        divisor,
        some_scale,
        unzigzag-zigzag v a,
        values,
      )
      refl

pub encode_column-IsByte : (vs : List ℕ) → All IsByte (encode_column vs)
unfolding encode_column
encode_column-IsByte [] = put_varint-IsByte 0
encode_column-IsByte (v ∷ vs) =
    let s = scale_of v vs in
    let scale = scale_of-IsScale v vs in
    All-append IsByte (put_varint (length (v ∷ vs))) _ (put_varint-IsByte (length (v ∷ vs))) (
      All-append IsByte (put_varint (zigzag v)) _ (put_varint-IsByte (zigzag v)) (
        All-append IsByte (put_varint s) _ (put_varint-IsByte s)
          (encode_blocks-IsByte s scale.not_zero scale.small (length vs) v vs scale.divides)))
