-- ===== src/Strategy/Frame.antt =====
-- What a strategy can change: it adds orders and rules, and neither trades nor money.
use Prim.Native.String.{String}
use volforge.Prelude.{List, [], ◌∷◌, ℤ, Returns, Returns-bind, Returns-then}
use volforge.Types.{InstrumentId}
use volforge.Market.{MarketView}
use volforge.Costs.{Side}
use volforge.Double.{Double}
use volforge.Portfolio.{Portfolio, PendingOrder}
use volforge.Portfolio.Submit.{submit_open}
use volforge.Portfolio.Frame.{
  Kept, IsFresh, Kept-refl, Kept-bind, submit_open-Kept, submit_close-Kept, submit_close_leg-Kept,
}
use volforge.Portfolio.RuleFrame.{
  attach_stop_loss-Kept, attach_take_profit-Kept, attach_exit_at-Kept,
}
use volforge.Strategy.{
  contracts_for, place, apply, run_script, Command, Script, suspends, throws, acts, order,
  close_position, close_leg, stop_loss, take_profit, exit_at,
}

module _ {F : Type 0} ⦃d : Double F⦄ (m : MarketView) where
  module _ (Q : PendingOrder → Type 0) where
    place-Kept :
        (p : Portfolio F) (side : Side) (legs : List InstrumentId) (lots : ℤ) (label : String)
        → IsFresh m.now Q p
        → Returns (place m p side legs lots label) (Kept m.now Q p)
    unfolding place
    place-Kept p side [] lots label fresh = Kept-refl m.now Q p
    place-Kept p side (i ∷ is) lots label fresh =
        Returns-then _ (contracts_for m.registry (i ∷ is) lots) _ λ qty.
          Returns-bind _ _ (submit_open p label (i ∷ is) side qty m.now) _
            (submit_open-Kept m.now Q p fresh label (i ∷ is) side qty) λ r k. k

    apply-Kept :
        (p : Portfolio F) (c : Command F)
        → IsFresh m.now Q p
        → Returns (apply m p c) (Kept m.now Q p)
    unfolding apply
    apply-Kept p (order side legs lots label) fresh = place-Kept p side legs lots label fresh
    apply-Kept p (close_position id) fresh = submit_close-Kept m.now Q p id fresh
    apply-Kept p (close_leg id j) fresh = submit_close_leg-Kept m.now Q p fresh id j
    apply-Kept p (stop_loss id leg pct) fresh = attach_stop_loss-Kept Q m.now p id leg pct
    apply-Kept p (take_profit id leg pct) fresh = attach_take_profit-Kept Q m.now p id leg pct
    apply-Kept p (exit_at id leg when) fresh = attach_exit_at-Kept Q m.now p id leg when

    -- Whatever the strategy does between two suspensions, the trades, the money, the delay and the
    -- models stay as they are, and the orders that it adds are signalled now and eligible after
    -- the delay.
    pub run_script-Kept :
        {S : Type 0} (p : Portfolio F) (x : Script F S)
        → IsFresh m.now Q p
        → Returns (run_script m p x) (λ r. Kept m.now Q p r.0)
    unfolding run_script
    run_script-Kept p (suspends s) fresh = Kept-refl m.now Q p
    run_script-Kept p (throws e) fresh = tt
    run_script-Kept p (acts c k) fresh =
        Kept-bind m.now Q (λ x. x) (λ r. r.0) p (apply m p c) _ fresh (apply-Kept p c fresh)
          λ p' fresh'. run_script-Kept p' (k p') fresh'
