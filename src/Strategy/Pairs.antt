-- ===== src/Strategy/Pairs.antt =====
-- The options that a chain selects, and the pairs of them.
use volforge.Prelude.{
  ℕ, ◌≡◌, refl, sym, ap, ◌∙◌, subst, ◌⊎◌, inl, inr, true, Option, none, some, List, [], ◌∷◌,
  Bool-cases, get_elem?, ℤ, pos, ◌+ℤ◌, ok,
}
use volforge.Types.{Price, InstrumentId, Right, call, put}
use volforge.Instrument.{InstrumentSpec, key_of, spec, find_option}
use volforge.Instrument.Laws.{IsValid, series_key, find_option-key}
use mathlib.Core.Option.{some-injective}
use volforge.Double.{Double}
use volforge.Strategy.Chain.{ChainView, strikes, atm_strike, strike_at, tradeable_now, option_at}

-- An option of the chain's series that can be traded now.
pub record IsOption {F : Type 0} (chain : ChainView F) (strike : Price) (right : Right)
    (id : InstrumentId) : Type 0 where
  pub contract : InstrumentSpec
  pub registered : spec chain.market.registry id ≡ ok contract
  pub series : key_of contract ≡ series_key chain.underlying chain.expiry strike right
  pub quoted : chain.market.has_quote id ≡ true

-- A strike that stands `offset` places from the one at the money, in the order of the strikes.
pub record IsPlaced {F : Type 0} ⦃d : Double F⦄ (chain : ChainView F) (offset : ℤ) (strike : Price)
    : Type 0 where
  pub atm : Price
  pub money : atm_strike chain ≡ some atm
  pub index : ℕ
  pub at_index : get_elem? (strikes chain) index ≡ some atm
  pub other : ℕ
  pub away : pos other ≡ pos index +ℤ offset
  pub there : get_elem? (strikes chain) other ≡ some strike

-- The chain has no strike at an offset, or no option there that can be traded.
abbrev pub Lacks : {F : Type 0} ⦃d : Double F⦄ → ChainView F → ℤ → Right → Type 0
Lacks chain offset right =
    (strike_at chain offset ≡ none)
    ⊎ ((k : Price) × (strike_at chain offset ≡ some k) × (option_at chain k right ≡ none))

module _ {F : Type 0} ⦃d : Double F⦄ (chain : ChainView F) where
  tradeable_now-quoted :
      (found : Option InstrumentId) (id : InstrumentId)
      → tradeable_now chain found ≡ some id
      → (found ≡ some id) × (chain.market.has_quote id ≡ true)
  tradeable_now-quoted none id h = cc
  tradeable_now-quoted (some x) id h = elim (Bool-cases (chain.market.has_quote x)) [
    | inl e ↦
        let same : x ≡ id = some-injective x id (sym (rw e refl) ∙ h) in
        (ap some same, subst (λ y. chain.market.has_quote y ≡ true) same e)
    | inr e ↦ absurd (none-ne (sym (rw e refl) ∙ h))
  ]
    where
      none-ne : none ≡ some id → ⊥
      none-ne e = cc

  module _ (v : IsValid chain.market.registry) where
    pub option_at-IsOption :
        (strike : Price) (right : Right) (id : InstrumentId)
        → option_at chain strike right ≡ some id
        → IsOption chain strike right id
    unfolding option_at
    option_at-IsOption strike right id h =
        let r = chain.market.registry in
        let (found, quoted) =
          tradeable_now-quoted (find_option r chain.underlying chain.expiry strike right) id h in
        let (s, known, key) =
          find_option-key r chain.underlying chain.expiry strike right v found in
        record { contract = s; registered = known; series = key; quoted = quoted }

    -- Nothing, where the chain lacks one of the two; or a call and a put of the chain, at the strikes
    -- that stand that many places from the money.
    abbrev pub IsPair : ℤ → ℤ → List InstrumentId → Type 0
    IsPair up down legs =
        ((legs ≡ []) × (Lacks chain up call ⊎ Lacks chain down put))
        ⊎ ((strike_c : Price) × (strike_p : Price) × (a : InstrumentId) × (b : InstrumentId)
            × IsPlaced chain up strike_c
            × IsPlaced chain down strike_p
            × (legs ≡ a ∷ b ∷ [])
            × IsOption chain strike_c call a
            × IsOption chain strike_p put b)
