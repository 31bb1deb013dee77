-- ===== src/Codec/Width.antt =====
-- The width of a block holds each of its residuals.
use Prim.Native.Nat.{max}
use volforge.Prelude.{
  ℕ, zero, suc, ◌/◌, ◌^◌, ◌≤◌, ◌<◌, ◌≡◌, refl, ◌⊎◌, inl, inr, false, List, [], ◌∷◌, arith, ltb,
  ◌==◌, Bool-cases, All, All-map,
}
use native.Mathlib.Nat.{pow-suc}
use volforge.Codec.{IsU64, max_packed_bits}
use volforge.Codec.Encoder.{bits_from, bits_for, range_of, block_bits}

bits_from_lem :
    (turns range : ℕ)
    → range < 2 ^ turns
    → (range < 2 ^ bits_from turns range) × (bits_from turns range ≤ turns)
unfolding bits_from
bits_from_lem zero range h = (h, omega arith)
bits_from_lem (suc turns) range h = elim (Bool-cases (range == 0)) [
  | inl e ↦ rw e (ground arith, omega arith)
  | inr e ↦
      let (most, least) = bits_from_lem turns (range / 2) (omega (arith, pow-suc 2 turns)) in
      rw e (omega (arith, most, pow-suc 2 (bits_from turns (range / 2))), omega (arith, least))
]

pub range_of-le : (range : ℕ) (rs : List ℕ) → range ≤ range_of range rs
unfolding range_of
range_of-le range [] = omega arith
range_of-le range (r ∷ rs) = omega (arith, range_of-le (max range r) rs)

pub range_of-bound : (range : ℕ) (rs : List ℕ) → All (λ r. r ≤ range_of range rs) rs
unfolding range_of
range_of-bound range [] = tt
range_of-bound range (r ∷ rs) =
    (omega (arith, range_of-le (max range r) rs), range_of-bound (max range r) rs)

pub range_of-IsU64 :
    (range : ℕ) (rs : List ℕ) → IsU64 range → All IsU64 rs → IsU64 (range_of range rs)
unfolding range_of
range_of-IsU64 range [] h a = h
range_of-IsU64 range (r ∷ rs) h (a, as') = range_of-IsU64 (max range r) rs (omega arith) as'

not_less : (a b : ℕ) → ltb a b ≡ false → b ≤ a
not_less a b h = ground arith

-- A width of 64, or one that is packed and holds the residuals.
pub block_bits-cases :
    (rs : List ℕ)
    → All IsU64 rs
    → (block_bits (range_of 0 rs) ≡ 64)
      ⊎ (block_bits (range_of 0 rs) ≤ max_packed_bits)
        × All (λ r. r < 2 ^ block_bits (range_of 0 rs)) rs
unfolding bits_for
block_bits-cases rs a =
    let range = range_of 0 rs in
    let (most, least) = bits_from_lem 64 range (range_of-IsU64 0 rs (omega arith) a) in
    elim (Bool-cases (ltb max_packed_bits (bits_from 64 range))) [
      | inl e ↦ inl (rw e refl)
      | inr e ↦ inr (
          rw e (
            not_less max_packed_bits (bits_from 64 range) e,
            All-map (λ r. r ≤ range) (λ r. r < 2 ^ bits_from 64 range)
                (λ r h. omega (arith, h, most)) rs (range_of-bound 0 rs),
          ))
    ]
