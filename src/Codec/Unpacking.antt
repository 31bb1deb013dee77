-- ===== src/Codec/Unpacking.antt =====
-- `unpack` reads back what `pack` wrote.
use Prim.Native.Nat.{bit_and, bit_or}
use volforge.Prelude.{
  ℕ, suc, ◌+◌, ◌-◌, ◌*◌, ◌/◌, ◌%◌, ◌^◌, ◌≤◌, ◌<◌, ◌≡◌, refl, sym, ap, ◌∙◌, subst, inl, inr, false,
  List, [], ◌∷◌, ◌++◌, arith, ltb, ◌==◌, ltb→lt, ==_iff, Bool-cases, length, drop, replicate, All,
  length-append, All-append,
}
use volforge.Prelude.Bits.{bit_or_field, bit_and_mask, two_pow-add, product-le}
use volforge.Codec.{IsByte, word, mask_of, packed_bytes, done}
use volforge.Codec.Outcome.{Yields, Yields-bind, Yields-map, Yields_done}
use volforge.Codec.Encoder.{pack_from, pack}
use volforge.Codec.Decoder.{refill, unpack_from, unpack}
use volforge.Codec.Packing.{
  bytes_number, values_number, bytes_number-append, cap, Packed, pack_from-Packed, mask_small,
}
use native.Mathlib.Decide.{dec_lt}
use native.Mathlib.Nat.{
  mul-add-mod_self_left, add-mul-div_left, mod-eq_of_lt, div-eq_of_lt, one-le-pow, pow-le-pow_right,
  div-add-mod, mod-lt, mul-suc,
}

-- What `refill` gives.
record Filled (bits acc held : ℕ) (bs : List ℕ) (s : ℕ × ℕ × List ℕ) : Type 0 where
  bytes : All IsByte s.2
  number : s.0 + 2 ^ s.1 * bytes_number s.2 ≡ acc + 2 ^ held * bytes_number bs
  enough : bits ≤ s.1
  count : s.1 + 8 * length s.2 ≡ held + 8 * length bs
  low : s.0 < 2 ^ s.1

byte_above : (held acc b : ℕ) → acc < 2 ^ held → IsByte b → acc + b * 2 ^ held < 2 ^ (held + 8)
byte_above held acc b k h =
    omega (arith, two_pow-add held 8, product-le (b + 1) 256 (2 ^ held) (omega arith))

byte_joined :
    (held acc b : ℕ)
    → held < 56
    → acc < 2 ^ held
    → IsByte b
    → bit_or acc (word (b * 2 ^ held)) ≡ acc + b * 2 ^ held
byte_joined held acc b small k h =
    let most = pow-le-pow_right {n = 2} (omega arith) {i = held + 8} {j = 64} (omega arith) in
    let fits : word (b * 2 ^ held) ≡ b * 2 ^ held =
      omega (arith, byte_above held acc b k h, most) in
    rw fits (bit_or_field held acc b k)

moved_byte :
    (acc b held number : ℕ)
    → acc + b * 2 ^ held + 2 ^ (held + 8) * number ≡ acc + 2 ^ held * (b + 2 ^ 8 * number)
moved_byte acc b held number = omega (arith, ap (λ (t : ℕ). t * number) (two_pow-add held 8))

refill-Filled :
    (bits : ℕ) (bs : List ℕ) (acc held : ℕ)
    → bits ≤ 56
    → acc < 2 ^ held
    → All IsByte bs
    → bits ≤ held + 8 * length bs
    → Yields (refill bits bs acc held) (Filled bits acc held bs)
unfolding refill bytes_number
refill-Filled bits [] acc held b k h room = elim (Bool-cases (ltb held bits)) [
  | inl e ↦ absurd (ground arith)
  | inr e ↦
      rw e (record { bytes = tt; number = refl; enough = ground arith; count = refl; low = k })
]
refill-Filled bits (x ∷ bs) acc held b k (h, hs) room = elim (Bool-cases (ltb held bits)) [
  | inl e ↦
      let small : held < 56 = omega (arith, ltb→lt held bits e) in
      let more =
        refill-Filled bits bs (acc + x * 2 ^ held) (held + 8) b (byte_above held acc x k h) hs
          (omega (arith, room)) in
      rw (e, byte_joined held acc x small k h)
        (Yields-map (Filled bits (acc + x * 2 ^ held) (held + 8) bs) (Filled bits acc held (x ∷ bs))
          (λ s filled. record {
            bytes = filled.bytes;
            number = filled.number ∙ moved_byte acc x held (bytes_number bs);
            enough = filled.enough;
            count = omega (arith, filled.count);
            low = filled.low;
          })
          (refill bits bs (acc + x * 2 ^ held) (held + 8)) more)
  | inr e ↦
      rw e (record { bytes = (h, hs); number = refl; enough = ground arith; count = refl; low = k })
]

-- A digit and the rest are given by the number.
same_digits : (p a b x y : ℕ) → a < p → b < p → a + p * x ≡ b + p * y → (a ≡ b) × (x ≡ y)
same_digits p a b x y h k e =
    let digit : a ≡ b =
      sym (mod-eq_of_lt h)
      ∙ (sym (mul-add-mod_self_left p x a)
          ∙ (ap (λ (n : ℕ). n % p) (omega (arith, e))
              ∙ (mul-add-mod_self_left p y b ∙ mod-eq_of_lt k))) in
    let rest : x ≡ y =
      omega (arith, div-eq_of_lt h)
      ∙ (sym (add-mul-div_left a x (omega (arith, h)))
          ∙ (ap (λ (n : ℕ). n / p) e
              ∙ (add-mul-div_left b y (omega (arith, h)) ∙ omega (arith, div-eq_of_lt k)))) in
    (digit, rest)

quotient_small : (a p q : ℕ) → a < p * q → a / p < q
quotient_small a p q h = elim (dec_lt (a / p) q) [
  | yes k ↦ k
  | no k ↦ absurd (omega (arith, div-add-mod a p, product-le q (a / p) p (omega arith)))
]

taken :
    (acc p q number v vs above : ℕ)
    → 0 < p
    → v < p
    → acc + p * q * number ≡ v + p * vs + p * above
    → (acc % p ≡ v) × (acc / p + q * number ≡ vs + above)
taken acc p q number v vs above h k e =
    same_digits p (acc % p) v (acc / p + q * number) (vs + above) (mod-lt acc h) k
      (omega (arith, e, div-add-mod acc p))

unpack_from_lem :
    (bits acc held : ℕ) (vs bs : List ℕ) (above : ℕ)
    → bits ≤ 56
    → acc < 2 ^ held
    → All IsByte bs
    → All (λ v. v < 2 ^ bits) vs
    → bits * length vs ≤ held + 8 * length bs
    → acc + 2 ^ held * bytes_number bs ≡ values_number bits vs + cap bits (length vs) * above
    → unpack_from bits (length vs) acc held bs ≡ done vs
unfolding unpack_from values_number
unpack_from_lem bits acc held [] bs above b k h f room e = refl
unpack_from_lem bits acc held (v ∷ vs) bs above b k h (f, fs) room e =
    Yields_done (unpack_from bits (suc (length vs)) acc held bs) (v ∷ vs) (
      Yields-bind (Filled bits acc held bs) (λ x. x ≡ v ∷ vs) (refill bits bs acc held) _
        (refill-Filled bits bs acc held b k h (omega (arith, room, mul-suc bits (length vs))))
        (λ s filled.
          let p = 2 ^ bits in
          let q = 2 ^ (s.1 - bits) in
          let power : 2 ^ s.1 ≡ p * q =
            ap (λ (x : ℕ). 2 ^ x) (omega (arith, filled.enough)) ∙ two_pow-add bits (s.1 - bits) in
          let (digit, others) =
            taken s.0 p q (bytes_number s.2) v (values_number bits vs)
              (cap bits (length vs) * above) (one-le-pow bits 2 (omega arith)) f
              (omega (arith, filled.number, e, ap (λ (t : ℕ). t * bytes_number s.2) power)) in
          let value : bit_and s.0 (mask_of bits) ≡ v =
            ap (λ m. bit_and s.0 m) (mask_small bits b) ∙ (bit_and_mask bits s.0 ∙ digit) in
          let rest =
            unpack_from_lem bits (s.0 / p) (s.1 - bits) vs s.2 above b
              (quotient_small s.0 p q (omega (arith, filled.low, power))) filled.bytes fs
              (omega (arith, room, mul-suc bits (length vs), filled.count, filled.enough)) others in
          rw (rest, value) refl))

drop-append : (xs ys : List ℕ) → drop (length xs) (xs ++ ys) ≡ ys
drop-append [] ys = refl
drop-append (x ∷ xs) ys = drop-append xs ys

all_zero : (vs : List ℕ) → All (λ v. v < 1) vs → replicate (length vs) 0 ≡ vs
all_zero [] h = refl
all_zero (v ∷ vs) (h, hs) = ap2_cons (omega arith) (all_zero vs hs)
  where
    ap2_cons : {a b : ℕ} {xs ys : List ℕ} → a ≡ b → xs ≡ ys → (a ∷ xs) ≡ (b ∷ ys)
    ap2_cons e k = cc

pack_from-count :
    (bits : ℕ) (vs : List ℕ)
    → Packed bits 0 0 vs (pack_from bits 0 0 vs)
    → length (pack_from bits 0 0 vs) ≡ packed_bytes (length vs) bits
pack_from-count bits vs packed = omega (arith, packed.count)

-- `unpack` reads back the values that `pack` wrote and leaves what follows them, where the values
-- fit in `bits` bits, that is at most the 56 that are packed, and bytes follow.
pub unpack-pack :
    (bits : ℕ) (vs rest : List ℕ)
    → bits ≤ 56
    → All (λ v. v < 2 ^ bits) vs
    → All IsByte rest
    → unpack (pack vs bits ++ rest) (length vs) bits ≡ done (vs, rest)
unfolding unpack pack
unpack-pack bits vs rest b f h = elim (Bool-cases (bits == 0)) [
  | inl e ↦
      let width = (==_iff bits 0).0 e in
      rw e (ap (λ xs. done (xs, rest)) (all_zero vs (subst (λ n. All (λ v. v < 2 ^ n) vs) width f)))
  | inr e ↦
      let packed = pack_from-Packed bits 0 0 vs b (omega arith) (omega arith) f in
      let bs = pack_from bits 0 0 vs in
      let count = pack_from-count bits vs packed in
      let long : ltb (length (bs ++ rest)) (packed_bytes (length vs) bits) ≡ false =
        ground (arith, length-append bs rest, count) in
      let values =
        unpack_from_lem bits 0 0 vs (bs ++ rest) (packed.pad * bytes_number rest) b (omega arith)
          (All-append IsByte bs rest packed.bytes h) f (omega (arith, length-append bs rest, count))
          (omega (
            arith,
            bytes_number-append bs rest,
            packed.number,
            ap (λ (t : ℕ). t * bytes_number rest) packed.room,
          )) in
      rw (e, long, values)
        (ap (λ xs. done (vs, xs))
          (subst (λ n. drop n (bs ++ rest) ≡ rest) count (drop-append bs rest)))
]
