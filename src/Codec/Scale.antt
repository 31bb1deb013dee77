-- ===== src/Codec/Scale.antt =====
-- The common divisor of the deltas divides each of them, and what it is divided out of comes back.
use volforge.Prelude.{
  ℕ, zero, suc, ◌+◌, ◌-◌, ◌*◌, ◌/◌, ◌%◌, ◌^◌, ◌≤◌, ◌<◌, ◌≡◌, refl, sym, ap, ◌∙◌, subst, inl, inr,
  Bool, true, false, List, [], ◌∷◌, arith, ◌==◌, if◌then◌else◌, ==_iff, Bool-cases, All,
}
use volforge.Codec.{IsU64, word, wrapped_minus, is_negative}
use volforge.Codec.Encoder.{
  gcd_from, gcd_of, magnitude, scale_from, scale_of, signed_div, divided, deltas_of, residuals_of,
  least_of, signed_lt,
}
use volforge.Codec.Decoder.{values_of}
use Prim.Native.Nat.{◌∣◌}
use native.Mathlib.Nat.{
  dvd_refl, dvd-zero, dvd_trans, dvd-mod_iff, one-dvd, div-mul_cancel, div-le_self, mod-lt, mod-le,
}

gcd_from-dvd : (turns a b : ℕ) → b < turns → (gcd_from turns a b ∣ a) × (gcd_from turns a b ∣ b)
unfolding gcd_from
gcd_from-dvd zero a b h = absurd (omega arith)
gcd_from-dvd (suc turns) a b h = elim (Bool-cases (b == 0)) [
  | inl e ↦
      let none_left = (==_iff b 0).0 e in
      rw e (dvd_refl a, subst (λ x. a ∣ x) (sym none_left) (dvd-zero a))
  | inr e ↦
      let (d, r) = gcd_from-dvd turns b (a % b) (omega (arith, mod-lt a {m = b} (ground arith))) in
      rw e ((dvd-mod_iff (gcd_from turns b (a % b)) d).0 r, d)
]

gcd_from-le : (turns a b bound : ℕ) → a ≤ bound → b ≤ bound → gcd_from turns a b ≤ bound
unfolding gcd_from
gcd_from-le zero a b bound h k = h
gcd_from-le (suc turns) a b bound h k =
    ground (arith, gcd_from-le turns b (a % b) bound, mod-le a b)

-- `s` divides each of the deltas, up to their signs.
abbrev pub Divides : ℕ → ℕ → List ℕ → Type 0
Divides s previous [] = Unit {0}
Divides s previous (v ∷ vs) = (s ∣ magnitude (wrapped_minus v previous)) × Divides s v vs

one-Divides : (previous : ℕ) (vs : List ℕ) → Divides 1 previous vs
one-Divides previous [] = tt
one-Divides previous (v ∷ vs) = (one-dvd _, one-Divides v vs)

scale_from-Divides :
    (s previous : ℕ) (vs : List ℕ)
    → (scale_from s previous vs ∣ s) × Divides (scale_from s previous vs) previous vs
unfolding scale_from gcd_of
scale_from-Divides s previous [] = (dvd_refl s, tt)
scale_from-Divides s previous (v ∷ vs) =
    let m = magnitude (wrapped_minus v previous) in
    let found = scale_from (gcd_of s m) v vs in
    let (d, rest) = scale_from-Divides (gcd_of s m) v vs in
    let (ds, dm) = gcd_from-dvd (m + 1) s m (omega arith) in
    elim (s == 1)
        as (λ b.
          (s == 1) ≡ b
          → ((if b then s else found) ∣ s) × Divides (if b then s else found) previous (v ∷ vs)) [
            | true ↦ λ e. (
              dvd_refl s,
              subst (λ x. Divides x previous (v ∷ vs)) (sym ((==_iff s 1).0 e))
                  (one-Divides previous (v ∷ vs)),
            )
            | false ↦ λ e. (dvd_trans _ d ds, (dvd_trans _ d dm, rest))
          ]
      refl

magnitude-le : (d : ℕ) → IsU64 d → magnitude d ≤ 2 ^ 63
magnitude-le d h = ground arith

scale_from-le : (s previous : ℕ) (vs : List ℕ) → s ≤ 2 ^ 63 → scale_from s previous vs ≤ 2 ^ 63
unfolding scale_from gcd_of
scale_from-le s previous [] h = h
scale_from-le s previous (v ∷ vs) h =
    let m = magnitude (wrapped_minus v previous) in
    let next = scale_from-le (gcd_of s m) v vs (
      gcd_from-le (m + 1) s m (2 ^ 63) h (magnitude-le (wrapped_minus v previous) (omega arith))) in
    ground (arith, next)

-- What a scale is: no 0, no more than the magnitude of a word, and a divisor of the deltas.
pub record IsScale (s first : ℕ) (vs : List ℕ) : Type 0 where
  pub not_zero : 0 < s
  pub small : s ≤ 2 ^ 63
  pub divides : Divides s first vs

pub scale_of-IsScale : (first : ℕ) (vs : List ℕ) → IsScale (scale_of first vs) first vs
unfolding scale_of
scale_of-IsScale first vs = elim (Bool-cases (scale_from 0 first vs == 0)) [
  | inl e ↦
      rw e (record { not_zero = omega arith; small = omega arith; divides = one-Divides first vs })
  | inr e ↦ rw e (record {
    not_zero = ground arith;
    small = scale_from-le 0 first vs (omega arith);
    divides = (scale_from-Divides 0 first vs).1;
  })
]

-- The delta, scaled back.
scaled_back : ℕ → ℕ → ℕ
scaled_back s d = if s == 1 then d else word (d * s)

negated_product :
    (q s m : ℕ)
    → q * s ≡ m
    → 0 < s
    → m ≤ 2 ^ 63
    → 0 < m
    → q ≤ m
    → word ((2 ^ 64 - q) * s) ≡ 2 ^ 64 - m
negated_product q s m e h small some_left less =
    let t = 2 ^ 64 - q in
    let total : t * s + q * s ≡ 2 ^ 64 * s =
      omega (arith, ap (λ (x : ℕ). x * s) (let whole : t + q ≡ 2 ^ 64 = omega arith in whole)) in
    omega (arith, total)

magnitude_same : (s : ℕ) → s ≤ 2 ^ 63 → magnitude s ≡ s
magnitude_same s h = ground arith

-- The four cases of the signs, for the quotient `t` of the magnitudes.
both_below :
    (raw s t : ℕ)
    → 2 ^ 63 ≤ raw
    → IsU64 raw
    → s ≡ 2 ^ 63
    → t * s ≡ 2 ^ 64 - raw
    → IsU64 t × (word (t * s) ≡ raw)
both_below raw s t h fits e exact = let two = ap (λ (x : ℕ). t * x) e in omega (arith, exact, two)

delta_below :
    (raw s t : ℕ)
    → 2 ^ 63 ≤ raw
    → IsU64 raw
    → 0 < s
    → t ≤ 2 ^ 64 - raw
    → t * s ≡ 2 ^ 64 - raw
    → IsU64 (word (2 ^ 64 - t)) × (word (word (2 ^ 64 - t) * s) ≡ raw)
delta_below raw s zero h fits pos_s less exact = absurd (omega (arith, exact))
delta_below raw s (suc n) h fits pos_s less exact =
    let t = suc n in
    let same : word (2 ^ 64 - t) ≡ 2 ^ 64 - t = omega arith in
    rw same (
      omega arith,
      negated_product t s (2 ^ 64 - raw) exact pos_s (omega arith) (omega arith) less ∙ omega arith,
    )

scale_below :
    (raw s t : ℕ)
    → raw < 2 ^ 63
    → s ≡ 2 ^ 63
    → t * s ≡ raw
    → IsU64 (word (2 ^ 64 - t)) × (word (word (2 ^ 64 - t) * s) ≡ raw)
scale_below raw s t h e exact =
    let two = ap (λ (x : ℕ). t * x) e in
    let none_left : t ≡ 0 = omega (arith, exact, two) in
    rw none_left (omega (arith, exact, two), omega (arith, exact, two))

magnitude_below : (raw : ℕ) → IsU64 raw → is_negative raw ≡ true → magnitude raw ≡ 2 ^ 64 - raw
magnitude_below raw h n = ground arith

magnitude_above : (raw : ℕ) → is_negative raw ≡ false → magnitude raw ≡ raw
magnitude_above raw n = ground arith

abbrev signed_as : Bool → Bool → ℕ → ℕ
signed_as true true q = q
signed_as true false q = word (2 ^ 64 - q)
signed_as false true q = word (2 ^ 64 - q)
signed_as false false q = q

signed_div-eq :
    (a b : ℕ)
    → signed_div a b ≡ signed_as (is_negative a) (is_negative b) (magnitude a / magnitude b)
signed_div-eq a b = go (is_negative a) (is_negative b) (magnitude a / magnitude b)
  where
    go :
        (x y : Bool) (q : ℕ)
        → (if x then (if y then q else word (2 ^ 64 - q)) else if y then word (2 ^ 64 - q) else q)
          ≡ signed_as x y q
    go true true q = refl
    go true false q = refl
    go false true q = refl
    go false false q = refl

by_signs :
    (raw s q : ℕ) (x y : Bool)
    → is_negative raw ≡ x
    → is_negative s ≡ y
    → 0 < s
    → s ≤ 2 ^ 63
    → IsU64 raw
    → q * s ≡ magnitude raw
    → q ≤ magnitude raw
    → IsU64 (signed_as x y q) × (word (signed_as x y q * s) ≡ raw)
by_signs raw s q true true n k h small fits exact less =
    both_below raw s q (ground arith) fits (ground arith) (exact ∙ magnitude_below raw fits n)
by_signs raw s q true false n k h small fits exact less =
    let m = magnitude_below raw fits n in
    delta_below raw s q (ground arith) fits h (omega (arith, less, m)) (exact ∙ m)
by_signs raw s q false true n k h small fits exact less =
    scale_below raw s q (ground arith) (ground arith) (exact ∙ magnitude_above raw n)
by_signs raw s q false false n k h small fits exact less =
    let m = magnitude_above raw n in (omega (arith, less, m), omega (arith, exact, m))

scaled_back-divided :
    (s raw : ℕ)
    → 0 < s
    → s ≤ 2 ^ 63
    → IsU64 raw
    → s ∣ magnitude raw
    → (IsU64 (divided s raw)) × (scaled_back s (divided s raw) ≡ raw)
unfolding scaled_back
scaled_back-divided s raw h small fits d =
    let same = magnitude_same s small in
    let q = magnitude raw / s in
    let parts =
      by_signs raw s q (is_negative raw) (is_negative s) refl refl h small fits (div-mul_cancel s d)
        (div-le_self (magnitude raw) s) in
    let value : signed_div raw s ≡ signed_as (is_negative raw) (is_negative s) q =
      signed_div-eq raw s
      ∙ ap (λ x. signed_as (is_negative raw) (is_negative s) (magnitude raw / x)) same in
    elim (Bool-cases (s == 1)) [ inl e ↦ rw e (fits, refl) | inr e ↦ rw (e, value) parts ]

module _ (s least : ℕ) (h : 0 < s) (small : s ≤ 2 ^ 63) (bound : IsU64 least) where
  -- The values of a block come back from its residuals.
  pub values_of-residuals_of :
      (previous : ℕ) (vs : List ℕ)
      → IsU64 previous
      → All IsU64 vs
      → Divides s previous vs
      → values_of s least previous (residuals_of least (deltas_of s previous vs)) ≡ vs
  unfolding values_of deltas_of scaled_back
  values_of-residuals_of previous [] k a d = refl
  values_of-residuals_of previous (v ∷ vs) k (a, as') (d, ds) =
      let raw = wrapped_minus v previous in
      let (fits, back) = scaled_back-divided s raw h small (omega arith) d in
      let delta : word (wrapped_minus (divided s raw) least + least) ≡ divided s raw =
        omega (arith, fits) in
      let first : word
            (previous + scaled_back s (word (wrapped_minus (divided s raw) least + least)))
          ≡ v =
        ap (λ x. word (previous + scaled_back s x)) delta
        ∙ (ap (λ x. word (previous + x)) back ∙ omega arith) in
      rw first (ap (λ (xs : List ℕ). v ∷ xs) (values_of-residuals_of v vs a as' ds))

  pub deltas_of-IsU64 :
      (previous : ℕ) (vs : List ℕ) → Divides s previous vs → All IsU64 (deltas_of s previous vs)
  unfolding deltas_of
  deltas_of-IsU64 previous [] d = tt
  deltas_of-IsU64 previous (v ∷ vs) (d, ds) = (
    (scaled_back-divided s (wrapped_minus v previous) h small (omega arith) d).0,
    deltas_of-IsU64 v vs ds,
  )

pub least_of-IsU64 :
    (least : ℕ) (ds : List ℕ) → IsU64 least → All IsU64 ds → IsU64 (least_of least ds)
unfolding least_of
least_of-IsU64 least [] h a = h
least_of-IsU64 least (d ∷ ds) h (a, as') =
    least_of-IsU64 (if signed_lt d least then d else least) ds (ground arith) as'
