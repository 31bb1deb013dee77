-- ===== src/Codec/Packing.antt =====
-- What `pack` writes. The bytes of a block, and the values of a block, are the
-- digits of one number.
use Prim.Native.Nat.{bit_and, bit_or}
use volforge.Prelude.{
  ℕ, zero, suc, ◌+◌, ◌-◌, ◌*◌, ◌/◌, ◌^◌, ◌≤◌, ◌<◌, ◌≡◌, sym, ap, ◌∙◌, inl, inr, List, [], ◌∷◌, ◌++◌,
  arith, ltb, if◌then◌else◌, ltb→lt, Bool-cases, length, All, length-append, All-append,
}
use volforge.Prelude.Bits.{bit_or_field, bit_and_mask, two_pow-add, product-le}
use volforge.Codec.{IsByte, word, mask_of}
use volforge.Codec.Encoder.{flush_from, flush, pack_from}
use native.Mathlib.Nat.{mod-eq_of_lt, pow-le-pow_right, mul-suc}

-- The number of some bytes, the lowest first, and of some values of `bits` bits.
unfoldable pub bytes_number : List ℕ → ℕ
bytes_number [] = 0
bytes_number (b ∷ bs) = b + 2 ^ 8 * bytes_number bs

unfoldable pub values_number : ℕ → List ℕ → ℕ
values_number bits [] = 0
values_number bits (v ∷ vs) = v + 2 ^ bits * values_number bits vs

-- How many numbers some bytes can hold.
unfoldable pub bytes_room : List ℕ → ℕ
bytes_room [] = 1
bytes_room (b ∷ bs) = 2 ^ 8 * bytes_room bs

pub bytes_number-append :
    (xs ys : List ℕ) → bytes_number (xs ++ ys) ≡ bytes_number xs + bytes_room xs * bytes_number ys
unfolding bytes_number bytes_room
bytes_number-append [] ys = omega arith
bytes_number-append (x ∷ xs) ys = omega (arith, bytes_number-append xs ys)

bytes_room-append : (xs ys : List ℕ) → bytes_room (xs ++ ys) ≡ bytes_room xs * bytes_room ys
unfolding bytes_room
bytes_room-append [] ys = omega arith
bytes_room-append (x ∷ xs) ys = omega (arith, bytes_room-append xs ys)

-- What `flush` leaves.
record Flushed (acc held : ℕ) (s : List ℕ × ℕ × ℕ) : Type 0 where
  bytes : All IsByte s.0
  number : acc ≡ bytes_number s.0 + bytes_room s.0 * s.1
  room : 2 ^ held ≡ bytes_room s.0 * 2 ^ s.2
  count : held ≡ s.2 + 8 * length s.0
  low : s.1 < 2 ^ s.2
  short : s.2 < 8

eight_more : (n : ℕ) → 8 ≤ n → 2 ^ n ≡ 256 * 2 ^ (n - 8)
eight_more n h =
    ap (λ (x : ℕ). 2 ^ x) (let split : n ≡ n - 8 + 8 = omega arith in split)
    ∙ omega (arith, two_pow-add (n - 8) 8)

flush_from-Flushed :
    (turns acc held : ℕ)
    → held ≤ 8 * turns
    → acc < 2 ^ held
    → Flushed acc held (flush_from turns acc held)
unfolding flush_from bytes_number bytes_room
flush_from-Flushed zero acc held h k = record {
  bytes = tt;
  number = omega arith;
  room = omega arith;
  count = omega arith;
  low = k;
  short = omega arith;
}
flush_from-Flushed (suc turns) acc held h k = elim (Bool-cases (ltb held 8)) [
  | inl e ↦ rw e (record {
    bytes = tt;
    number = omega arith;
    room = omega arith;
    count = omega arith;
    low = k;
    short = ltb→lt held 8 e;
  })
  | inr e ↦
      let enough : 8 ≤ held = ground arith in
      let pow = eight_more held enough in
      let less : acc / 256 < 2 ^ (held - 8) = omega (arith, pow) in
      let rest = flush_from-Flushed turns (acc / 2 ^ 8) (held - 8) (omega arith) less in
      let byte = bit_and_mask 8 acc in
      rw e (record {
        bytes = (omega (arith, byte), rest.bytes);
        number = omega (arith, byte, rest.number);
        room = omega (arith, pow, rest.room);
        count = omega (arith, rest.count);
        low = rest.low;
        short = rest.short;
      })
]

abbrev pub cap : ℕ → ℕ → ℕ
cap bits zero = 1
cap bits (suc n) = 2 ^ bits * cap bits n

-- The room that `pack` leaves at the end of the last byte.
pub record Packed (bits acc held : ℕ) (vs bs : List ℕ) : Type 0 where
  pub bytes : All IsByte bs
  pub number : bytes_number bs ≡ acc + 2 ^ held * values_number bits vs
  pub pad : ℕ
  pub room : bytes_room bs ≡ 2 ^ held * cap bits (length vs) * pad
  pub count : length bs ≡ (held + bits * length vs + 7) / 8

pub power_small : (bits : ℕ) → bits ≤ 56 → 2 ^ bits ≤ 2 ^ 56
power_small bits b = pow-le-pow_right {n = 2} (omega arith) {i = bits} {j = 56} b

pub mask_small : (bits : ℕ) → bits ≤ 56 → mask_of bits ≡ 2 ^ bits - 1
mask_small bits b = ground (arith, power_small bits b)

-- A field put above the accumulator.
room_for :
    (bits held acc v : ℕ) → acc < 2 ^ held → v < 2 ^ bits → acc + v * 2 ^ held < 2 ^ (held + bits)
room_for bits held acc v k f =
    let most = product-le (v + 1) (2 ^ bits) (2 ^ held) (omega arith) in
    omega (arith, two_pow-add held bits, most)

-- The accumulator with a value more.
joined :
    (bits acc held v : ℕ)
    → bits ≤ 56
    → held < 8
    → acc < 2 ^ held
    → v < 2 ^ bits
    → bit_or acc (word (bit_and v (mask_of bits) * 2 ^ held)) ≡ acc + v * 2 ^ held
joined bits acc held v b h k f =
    let value : bit_and v (mask_of bits) ≡ v =
      ap (λ m. bit_and v m) (mask_small bits b) ∙ (bit_and_mask bits v ∙ mod-eq_of_lt f) in
    let most = pow-le-pow_right {n = 2} (omega arith) {i = held + bits} {j = 63} (omega arith) in
    let fits : word (v * 2 ^ held) ≡ v * 2 ^ held =
      omega (arith, room_for bits held acc v k f, most) in
    rw (value, fits) (bit_or_field held acc v k)

shifted_sum :
    (number room acc' width acc held bits v vs : ℕ)
    → acc + v * held ≡ number + room * acc'
    → held * bits ≡ room * width
    → number + room * (acc' + width * vs) ≡ acc + held * (v + bits * vs)
shifted_sum number room acc' width acc held bits v vs e p =
    omega (arith, e, ap (λ (t : ℕ). t * vs) p)

shifted_room :
    (room width held bits cap pad : ℕ)
    → held * bits ≡ room * width
    → room * (width * cap * pad) ≡ held * (bits * cap) * pad
shifted_room room width held bits cap pad p = omega (arith, ap (λ (t : ℕ). t * cap * pad) p)

last_byte_room : (held : ℕ) → held ≤ 8 → 256 ≡ 2 ^ held * 2 ^ (8 - held)
last_byte_room held h =
    ap (λ (x : ℕ). 2 ^ x) (let split : 8 ≡ held + (8 - held) = omega arith in split)
    ∙ two_pow-add held (8 - held)

nothing_left :
    (bits acc held : ℕ)
    → held < 8
    → acc < 2 ^ held
    → Packed bits acc held [] (if ltb 0 held then bit_and acc 0xff ∷ [] else [])
unfolding bytes_number bytes_room values_number
nothing_left bits acc held h k = elim (Bool-cases (ltb 0 held)) [
  | inl e ↦
      let most = pow-le-pow_right {n = 2} (omega arith) {i = held} {j = 7} (omega arith) in
      let byte : bit_and acc 0xff ≡ acc = bit_and_mask 8 acc ∙ mod-eq_of_lt (omega (arith, most)) in
      rw (e, byte)
        (record {
          bytes = (omega (arith, most), tt);
          number = omega arith;
          pad = 2 ^ (8 - held);
          room = omega (arith, last_byte_room held (omega arith));
          count = ground arith;
        })
  | inr e ↦
      let empty : held ≡ 0 = ground arith in
      rw (e, empty)
        (record {
          bytes = tt;
          number = omega (arith, ap (λ (t : ℕ). 2 ^ t) empty);
          pad = 1;
          room = omega arith;
          count = omega arith;
        })
]

pub pack_from-Packed :
    (bits acc held : ℕ) (vs : List ℕ)
    → bits ≤ 56
    → held < 8
    → acc < 2 ^ held
    → All (λ v. v < 2 ^ bits) vs
    → Packed bits acc held vs (pack_from bits acc held vs)
unfolding pack_from bytes_number bytes_room values_number flush
pack_from-Packed bits acc held [] b h k f = nothing_left bits acc held h k
pack_from-Packed bits acc held (v ∷ vs) b h k (f, fs) =
    let value = joined bits acc held v b h k f in
    let low = room_for bits held acc v k f in
    let a = acc + v * 2 ^ held in
    let s = flush_from (held + bits) a (held + bits) in
    let out = flush_from-Flushed (held + bits) a (held + bits) (omega arith) low in
    let rest = pack_from-Packed bits s.1 s.2 vs b out.short out.low fs in
    let power = two_pow-add held bits in
    let bs = pack_from bits s.1 s.2 vs in
    rw value (record {
      bytes = All-append IsByte s.0 bs out.bytes rest.bytes;
      number =
          bytes_number-append s.0 bs
          ∙ (ap (λ x. bytes_number s.0 + bytes_room s.0 * x) rest.number
              ∙ shifted_sum _ _ _ _ acc (2 ^ held) (2 ^ bits) v (values_number bits vs) out.number
                  (sym power ∙ out.room));
      pad = rest.pad;
      room =
          bytes_room-append s.0 bs
          ∙ (ap (λ x. bytes_room s.0 * x) rest.room
              ∙ shifted_room _ _ (2 ^ held) (2 ^ bits) (cap bits (length vs)) rest.pad
                  (sym power ∙ out.room));
      count = length-append s.0 bs ∙ omega (arith, out.count, rest.count, mul-suc bits (length vs));
    })
