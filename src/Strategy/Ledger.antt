-- ===== src/Strategy/Ledger.antt =====
-- A strategy keeps the ledger.
use Prim.Native.String.{String}
use volforge.Prelude.{
  ◌≡◌, refl, false, not, List, [], ◌∷◌, ℤ, pos, leb_ℤ, eqb_ℤ, Error, throw_if, Safe, Safe-bind,
  throw_if-Safe, is_fault,
}
use volforge.Types.{Qty, InstrumentId}
use volforge.Instrument.{InstrumentRegistry, spec}
use volforge.Market.{MarketView}
use volforge.Costs.{Side}
use volforge.Double.{Double}
use volforge.Portfolio.{Portfolio, RiskRule, at}
use volforge.Portfolio.Submit.{submit_open}
use volforge.Portfolio.Accounting.{Balanced, spec-Safe}
use volforge.Portfolio.Opening.{submit_open-Balanced}
use volforge.Portfolio.Closing.{submit_close-Balanced, at-Safe}
use volforge.Portfolio.Rules.{attach, attach_stop_loss, attach_take_profit, attach_exit_at}
use volforge.Strategy.{
  same_lots, contracts_for, place, apply, run_script, Command, Script, suspends, throws, acts,
  order, close_position, close_leg, stop_loss, take_profit, exit_at,
}

same_lots-Safe :
    (r : InstrumentRegistry) (lot : Qty) (ids : List InstrumentId)
    → Safe (same_lots r lot ids) (λ _. Unit {0})
unfolding same_lots
same_lots-Safe r lot [] = tt
same_lots-Safe r lot (id ∷ ids) = Safe-bind _ _ (spec r id) _ (spec-Safe r id) λ s _.
    Safe-bind _ _ (throw_if (not (eqb_ℤ s.lot_size lot)) Error.invalid_argument) _
      (throw_if-Safe _ _ refl) λ _ _. same_lots-Safe r lot ids

contracts_for-Safe :
    (r : InstrumentRegistry) (ids : List InstrumentId) (lots : ℤ)
    → Safe (contracts_for r ids lots) (λ _. Unit {0})
unfolding contracts_for
contracts_for-Safe r [] lots = refl
contracts_for-Safe r (id ∷ ids) lots =
    Safe-bind _ _ (throw_if (leb_ℤ lots (pos 0)) Error.invalid_argument) _ (throw_if-Safe _ _ refl)
      λ _ _. Safe-bind _ _ (spec r id) _ (spec-Safe r id) λ s _.
        Safe-bind _ _ (same_lots r s.lot_size (id ∷ ids)) _ (same_lots-Safe r s.lot_size (id ∷ ids))
          λ _ _. tt

-- A script that throws only exceptions, whatever portfolio its commands leave.
abbrev pub OnlyThrows : {F S : Type 0} → Script F S → Type 0
OnlyThrows (suspends s) = Unit {0}
OnlyThrows (throws e) = is_fault e ≡ false
OnlyThrows {F} (acts c k) = (p : Portfolio F) → OnlyThrows (k p)

module _ {F : Type 0} ⦃d : Double F⦄ (m : MarketView) where
  place-Balanced :
      (p : Portfolio F) (side : Side) (legs : List InstrumentId) (lots : ℤ) (label : String)
      → Balanced p
      → Safe (place m p side legs lots label) Balanced
  unfolding place
  place-Balanced p side [] lots label g = g
  place-Balanced p side (i ∷ is) lots label g =
      Safe-bind _ _ (contracts_for m.registry (i ∷ is) lots) _
        (contracts_for-Safe m.registry (i ∷ is) lots)
        λ qty _.
          Safe-bind _ _ (submit_open p label (i ∷ is) side qty m.now) _
            (submit_open-Balanced p label (i ∷ is) side qty m.now g) λ r k. k.0

  attach-Balanced : (p : Portfolio F) (r : RiskRule F) → Balanced p → Safe (attach p r) Balanced
  attach-Balanced p r g = Safe-bind _ _ (at p (pos r.position)) _ (at-Safe p r.position) λ _ _. g

  apply-Balanced : (p : Portfolio F) (c : Command F) → Balanced p → Safe (apply m p c) Balanced
  unfolding apply attach_stop_loss attach_take_profit attach_exit_at
  apply-Balanced p (order side legs lots label) g = place-Balanced p side legs lots label g
  apply-Balanced p (close_position id) g = (submit_close-Balanced p id 0 m.now g).1
  apply-Balanced p (close_leg id j) g = (submit_close-Balanced p id j m.now g).0
  apply-Balanced p (stop_loss id leg pct) g =
      Safe-bind _ _ (throw_if (d.le pct (d.literal 0 0)) Error.invalid_argument) _
        (throw_if-Safe _ _ refl) λ _ _. attach-Balanced p _ g
  apply-Balanced p (take_profit id leg pct) g =
      Safe-bind _ _ (throw_if (d.le pct (d.literal 0 0)) Error.invalid_argument) _
        (throw_if-Safe _ _ refl) λ _ _. attach-Balanced p _ g
  apply-Balanced p (exit_at id leg when) g = attach-Balanced p _ g

  -- Whatever commands a strategy gives between two suspensions, they touch no leg that is not there
  -- and leave a balanced portfolio balanced.
  pub run_script-Balanced :
      {S : Type 0} (p : Portfolio F) (x : Script F S)
      → OnlyThrows x
      → Balanced p
      → Safe (run_script m p x) (λ r. Balanced r.0)
  unfolding run_script
  run_script-Balanced p (suspends s) n g = g
  run_script-Balanced p (throws e) n g = n
  run_script-Balanced p (acts c k) n g =
      Safe-bind _ _ (apply m p c) _ (apply-Balanced p c g)
        λ p' h. run_script-Balanced p' (k p') (n p') h
