-- ===== src/Bars/Grid.antt =====
-- The grid that bars are laid on: a print lies in its bar.
use native.Mathlib.Nat.{div-add-mod, mod-lt, mul_comm}
use volforge.Prelude.{
  ℕ, zero, suc, ◌+◌, ◌-◌, ◌*◌, ◌/◌, ◌%◌, ◌<◌, ◌≡◌, refl, sym, inl, inr, true, false, arith,
  Bool-cases, ℤ, pos, negsuc, pos_part, neg_part, ◌+ℤ◌, ◌-ℤ◌, ◌*ℤ◌, neg, ◌≤ℤ◌, ◌<ℤ◌, leb_ℤ,
  int_laws,
}
use volforge.Types.{Timestamp}
use volforge.Bars.{bucket_of, opens_at}

pos_mul : (a b : ℕ) → pos a *ℤ pos b ≡ pos (a * b)
unfolding ◌*ℤ◌
pos_mul a b = ground arith

neg_mul : (a b : ℕ) → neg (pos a) *ℤ pos b ≡ neg (pos (a * b))
unfolding ◌*ℤ◌ neg
neg_mul zero b = ground arith
neg_mul (suc a) b = ground arith

neg_part-zero : (z : ℤ) → leb_ℤ (pos 0) z ≡ true → neg_part z ≡ 0
neg_part-zero (pos n) h = refl
neg_part-zero (negsuc n) h = ground arith

pos_part-zero : (z : ℤ) → leb_ℤ (pos 0) z ≡ false → pos_part z ≡ 0
pos_part-zero (pos n) h = ground arith
pos_part-zero (negsuc n) h = refl

-- The bucket of a time, as a number of intervals from the anchor.
module _ (anchor : Timestamp) (interval : ℕ) (t : Timestamp) (h : 0 < interval) where
  -- A print lies between the opening of its bar and the close, which is no longer in the bar.
  pub bucket_of-lem :
      (opens_at anchor interval (bucket_of anchor interval t) ≤ℤ t)
      × (t <ℤ opens_at anchor interval (bucket_of anchor interval t) +ℤ pos interval)
  unfolding bucket_of opens_at
  bucket_of-lem = elim (Bool-cases (leb_ℤ (pos 0) (t -ℤ anchor))) [
    | inl e ↦
        let delta = t -ℤ anchor in
        let up = neg_part-zero delta e in
        let n = pos_part delta / interval in
        let parts : pos_part delta ≡ interval * n + pos_part delta % interval =
          sym (div-add-mod (pos_part delta) interval) in
        let short = mod-lt (pos_part delta) h in
        rw (e, pos_mul n interval, mul_comm n interval)
          (omega (int_laws, parts, short), omega (int_laws, parts, short))
    | inr e ↦
        let delta = t -ℤ anchor in
        let down = pos_part-zero delta e in
        let m = neg_part delta + (interval - 1) in
        let parts : m ≡ interval * (m / interval) + m % interval = sym (div-add-mod m interval) in
        let short = mod-lt m h in
        rw (e, neg_mul (m / interval) interval, mul_comm (m / interval) interval)
          (omega (int_laws, parts, short), omega (int_laws, parts, short))
  ]
