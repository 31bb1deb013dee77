-- ===== src/Strategy/Deltas.antt =====
-- What a selection by delta gives, and where a forward is searched.
use volforge.Prelude.{
  ◌≡◌, subst, inl, inr, Option, none, some, List, [], ◌∷◌, Option-cases, if_both,
}
use volforge.Types.{Price, InstrumentId, Right}
use volforge.Instrument.Laws.{IsValid}
use mathlib.Core.Option.{some-injective}
use volforge.Double.{Double}
use volforge.Strategy.Chain.{
  ChainView, strikes, option_at, considered, closer_delta, delta_gap, chosen, by_delta_from,
  by_delta,
}
use volforge.Strategy.Pairs.{IsOption, option_at-IsOption}

module _ {F : Type 0} ⦃d : Double F⦄ (chain : ChainView F) (v : IsValid chain.market.registry)
    (delta : InstrumentId → Option F) (magnitude : F → F) (want : F) (right : Right) where
  -- An option of the chain, of one of its strikes, whose delta is known.
  abbrev pub HasDelta : InstrumentId → Type 0
  HasDelta id = (strike : Price) × IsOption chain strike right id × (g : F) × (delta id ≡ some g)

  abbrev Known : Option (InstrumentId × F) → Type 0
  Known none = Unit {0}
  Known (some (id, x)) = HasDelta id

  considered-Known :
      (k : Price) (best : Option (InstrumentId × F))
      → Known best
      → Known (considered chain delta magnitude want (option_at chain k right) best)
  considered-Known k best h = elim (Option-cases (option_at chain k right)) [
    | inl e ↦ rw e h
    | inr (id, e) ↦ elim (Option-cases (delta id)) [
      | inl e' ↦ rw (e, e') h
      | inr (g, e') ↦
          rw (e, e')
            (closer (delta_gap chain delta magnitude want g)
              (k, option_at-IsOption chain v k right id e, g, e') best h)
    ]
  ]
    where
      closer :
          {id : InstrumentId} (x : F)
          → HasDelta id
          → (best : Option (InstrumentId × F)) → Known best
          → Known (closer_delta chain delta magnitude want id x best)
      closer x a none h = a
      closer x a (some (b, y)) h = if_both Known (d.lt x y) a h

  by_delta_from-Known :
      (best : Option (InstrumentId × F)) (ks : List Price)
      → Known best
      → Known (by_delta_from chain delta magnitude want right best ks)
  unfolding by_delta_from
  by_delta_from-Known best [] h = h
  by_delta_from-Known best (k ∷ ks) h =
      by_delta_from-Known (considered chain delta magnitude want (option_at chain k right) best) ks
        (considered-Known k best h)

-- An option that is selected by its delta is one of the chain's series, at a strike, that has quoted by
-- now, and whose delta is known, in a valid registry.
pub by_delta-HasDelta :
    {F : Type 0} ⦃d : Double F⦄ (chain : ChainView F) (delta : InstrumentId → Option F)
    (magnitude : F → F) (target : F) (right : Right) (id : InstrumentId)
    → (v : IsValid chain.market.registry) → by_delta chain delta magnitude target right ≡ some id
    → HasDelta chain v delta magnitude (magnitude target) right id
unfolding by_delta
by_delta-HasDelta {F = F} chain delta magnitude target right id v h =
    found (by_delta_from chain delta magnitude (magnitude target) right none (strikes chain))
      (by_delta_from-Known chain v delta magnitude (magnitude target) right none (strikes chain) tt)
      h
  where
    found :
        (best : Option (InstrumentId × F))
        → Known chain v delta magnitude (magnitude target) right best
        → chosen chain best ≡ some id
        → HasDelta chain v delta magnitude (magnitude target) right id
    found none k e = cc
    found (some (b, y)) k e =
        subst (HasDelta chain v delta magnitude (magnitude target) right) (some-injective b id e) k
