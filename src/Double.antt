-- ===== src/Double.antt =====
-- What the engine does with a `double`. The type and its operations are a parameter of the
-- definitions that use them, so no theorem rests on a rounding rule.
use volforge.Prelude.{
  ℕ, suc, ◌-◌, ◌*◌, ◌/◌, ◌%◌, ◌^◌, Bool, ltb, if◌then◌else◌, ℤ, pos, negsuc, ◌+ℤ◌, ◌-ℤ◌, ◌*ℤ◌, neg,
  ltb_ℤ, leb_ℤ, div_ℤ,
}
use volforge.Types.{Price}

pub record Double (F : Type 0) : Type 0 where
  pub of_int : ℤ → F
  -- The literal `m * 10 ^ -k`.
  pub literal : ℕ → ℕ → F
  pub add : F → F → F
  pub sub : F → F → F
  pub mul : F → F → F
  pub div : F → F → F
  pub minus : F → F
  pub lt : F → F → Bool
  pub le : F → F → Bool
  pub llround : F → ℤ

-- `static_cast<std::int32_t>`, which wraps.
abbrev pub low_word : ℤ → ℕ
low_word (pos n) = n % 2 ^ 32
low_word (negsuc n) = 2 ^ 32 - 1 - n % 2 ^ 32

abbrev pub wrap_int32 : ℤ → ℤ
wrap_int32 z = let w = low_word z in if ltb w (2 ^ 31) then pos w else negsuc (2 ^ 32 - 1 - w)

module _ {F : Type 0} ⦃d : Double F⦄ where
  -- `Price::to_double` and `Money::to_double`.
  abbrev pub to_double : ℤ → F
  to_double m = d.div (d.of_int m) (d.of_int (pos 100))

  -- `Price::from_double`.
  abbrev pub from_double : F → Price
  from_double v = wrap_int32 (d.llround (d.mul v (d.of_int (pos 100))))

  -- `std::max`.
  abbrev pub max_double : F → F → F
  max_double a b = if d.lt a b then b else a

-- Hundredths, as a value of the interface to run the code with.
instance abbrev pub hundredths : Double ℤ
unfolding ◌+ℤ◌ ◌-ℤ◌ ◌*ℤ◌ neg div_ℤ
hundredths = record {
  of_int = λ a. a *ℤ pos 100;
  literal = λ m k. pos (m * 100 / 10 ^ k);
  add = λ a b. a +ℤ b;
  sub = λ a b. a -ℤ b;
  mul = λ a b. div_ℤ (a *ℤ b) 100;
  div = λ a b. elim b [
    | pos n ↦ div_ℤ (a *ℤ pos 100) n
    | negsuc n ↦ neg (div_ℤ (a *ℤ pos 100) (suc n))
  ];
  minus = λ a. neg a;
  lt = λ a b. ltb_ℤ a b;
  le = λ a b. leb_ℤ a b;
  llround = λ a. div_ℤ (a +ℤ (if ltb_ℤ a (pos 0) then negsuc 49 else pos 50)) 100;
}
