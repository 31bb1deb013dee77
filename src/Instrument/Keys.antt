-- ===== src/Instrument/Keys.antt =====
-- Equality of keys, and lookup by key.
use volforge.Prelude.{ℕ, ◌≡◌, Bool, true, ◌&&◌, some, List, ◌∷◌, arith, eqb_ℤ_iff, eqb_ℤ_refl}
use volforge.Instrument.{Key, key_eq, find_key}

&&_parts : (a b : Bool) → (a && b) ≡ true → (a ≡ true) × (b ≡ true)
&&_parts a b h = ground arith

pub key_eq→eq : (a b : Key) → key_eq a b ≡ true → a ≡ b
key_eq→eq a b h =
    let (h1, r1) = &&_parts _ _ h in
    let (h2, r2) = &&_parts _ _ r1 in
    let (h3, r3) = &&_parts _ _ r2 in
    let (h4, h5) = &&_parts _ _ r3 in
    λ i. record {
      underlying = (eqb_ℤ_iff a.underlying b.underlying).0 h1 i;
      kind = (eqb_ℤ_iff a.kind b.kind).0 h2 i;
      expiry = (eqb_ℤ_iff a.expiry b.expiry).0 h3 i;
      strike = (eqb_ℤ_iff a.strike b.strike).0 h4 i;
      right = (eqb_ℤ_iff a.right b.right).0 h5 i;
    }

pub key_eq_refl : (a : Key) → key_eq a a ≡ true
key_eq_refl a = rw (
  eqb_ℤ_refl a.underlying,
  eqb_ℤ_refl a.kind,
  eqb_ℤ_refl a.expiry,
  eqb_ℤ_refl a.strike,
  eqb_ℤ_refl a.right,
)

pub find_key_head : (k : Key) (i : ℕ) (m : List (Key × ℕ)) → find_key k ((k, i) ∷ m) ≡ some i
unfolding find_key
find_key_head k i m = rw (key_eq_refl k)
