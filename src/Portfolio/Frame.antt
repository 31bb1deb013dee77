-- ===== src/Portfolio/Frame.antt =====
-- What submitting, closing and the risk rules leave alone: the trades, the money, the delay and the
-- models; and an order that they add is signalled now and eligible after the delay.
use Prim.Native.String.{String}
use volforge.Prelude.{
  ℕ, zero, suc, ◌≡◌, refl, ◌∙◌, subst, Bool, true, false, not, List, [], ◌∷◌, if◌then◌else◌, length,
  get_elem?, All, All-append, ℤ, pos, ◌+ℤ◌, leb_ℤ, Error, Result, ok, ◌>>=◌, throw_if, or_throw,
  Returns, Returns-bind, Returns-then, Returns-map,
}
use volforge.Types.{Timestamp, Qty, InstrumentId}
use volforge.Costs.{Side}
use volforge.Portfolio.{Portfolio, Position, PendingOrder, at, get_leg, state_open}
use volforge.Portfolio.Submit.{
  is_empty, open_orders, submit_open, submit_close_leg, close_legs, submit_close, cancel_openings,
  cancel_one, withdraws, sweep, withdrawn, close_open_leg,
}

-- `Q` is any property of orders that those signalled at `now` have.
pub record Kept {F : Type 0} (now : Timestamp) (Q : PendingOrder → Type 0) (p p' : Portfolio F)
    : Type 0 where
  pub trades : p'.trades ≡ p.trades
  pub realized : p'.realized ≡ p.realized
  pub total_costs : p'.total_costs ≡ p.total_costs
  pub delay : p'.delay ≡ p.delay
  pub fills : p'.fills ≡ p.fills
  pub costs : p'.costs ≡ p.costs
  pub pending : All Q p.pending → All Q p'.pending

-- An order of this moment.
abbrev pub Fresh : Timestamp → ℤ → PendingOrder → Type 0
Fresh now delay o = (o.submitted_at ≡ now) × (o.eligible_at ≡ now +ℤ delay)

abbrev pub IsFresh : {F : Type 0} → Timestamp → (PendingOrder → Type 0) → Portfolio F → Type 0
IsFresh now Q p = (o : PendingOrder) → Fresh now p.delay o → Q o

cancel_openings-All :
    (Q : PendingOrder → Type 0) (id : ℕ) (ps : List Position) (os : List PendingOrder)
    → Returns (cancel_openings id ps os) (λ s. All Q os → All Q s.1)
unfolding cancel_openings
cancel_openings-All Q id ps [] = λ h. h
cancel_openings-All Q id ps (o ∷ os) = Returns-then _ (cancel_one id ps o) _ λ ps'.
    Returns-bind _ _ (cancel_openings id ps' os) _ (cancel_openings-All Q id ps' os) λ rest k.
      elim (withdraws id o) as (λ b. All Q (o ∷ os) → All Q (sweep b o rest).1) [
        | true ↦ λ h. k h.1
        | false ↦ λ h. (h.0, k h.1)
      ]

open_orders-Fresh :
    (now : Timestamp) (Q : PendingOrder → Type 0) (id : ℕ) (side : Side) (qty : Qty) (delay : ℤ)
    (from_rule : Bool)
    → ((o : PendingOrder) → Fresh now delay o → Q o)
    → (is : List InstrumentId) (j : ℕ)
    → All Q (open_orders id j side qty now (now +ℤ delay) from_rule is)
unfolding open_orders
open_orders-Fresh now Q id side qty delay from_rule fresh [] j = tt
open_orders-Fresh now Q id side qty delay from_rule fresh (i ∷ is) j =
    (fresh _ (refl, refl), open_orders-Fresh now Q id side qty delay from_rule fresh is (suc j))

module _ {F : Type 0} (now : Timestamp) (Q : PendingOrder → Type 0) where
  pub Kept-refl : (p : Portfolio F) → Kept now Q p p
  Kept-refl p = record {
    trades = refl;
    realized = refl;
    total_costs = refl;
    delay = refl;
    fills = refl;
    costs = refl;
    pending = λ h. h;
  }

  pub Kept-trans : (p q r : Portfolio F) → Kept now Q p q → Kept now Q q r → Kept now Q p r
  Kept-trans p q r h k = record {
    trades = k.trades ∙ h.trades;
    realized = k.realized ∙ h.realized;
    total_costs = k.total_costs ∙ h.total_costs;
    delay = k.delay ∙ h.delay;
    fills = k.fills ∙ h.fills;
    costs = k.costs ∙ h.costs;
    pending = λ x. k.pending (h.pending x);
  }

  pub Kept-IsFresh : (p p' : Portfolio F) → Kept now Q p p' → IsFresh now Q p → IsFresh now Q p'
  Kept-IsFresh p p' k fresh = λ o h. fresh o (subst (λ d. Fresh now d o) k.delay h)

  -- Two steps in a row.
  pub Kept-bind :
      {A B : Type 0} (out : A → Portfolio F) (end : B → Portfolio F) (p : Portfolio F)
      (r : Result A) (f : A → Result B)
      → IsFresh now Q p
      → Returns r (λ a. Kept now Q p (out a))
      → ((a : A) → IsFresh now Q (out a) → Returns (f a) (λ b. Kept now Q (out a) (end b)))
      → Returns (r >>= f) (λ b. Kept now Q p (end b))
  Kept-bind out end p r f fresh h g = Returns-bind _ _ r f h λ a k.
      Returns-map _ _ (f a) (λ b. Kept-trans p (out a) (end b) k)
        (g a (Kept-IsFresh p (out a) k fresh))

  module _ (p : Portfolio F) (fresh : IsFresh now Q p) where
    pub submit_open-Kept :
        (label : String) (is : List InstrumentId) (side : Side) (qty : Qty)
        → Returns (submit_open p label is side qty now) (λ r. Kept now Q p r.0)
    unfolding submit_open
    submit_open-Kept label is side qty =
        Returns-then _ (throw_if (is_empty is) Error.invalid_argument) _ λ _.
          Returns-then _ (throw_if (leb_ℤ qty (pos 0)) Error.invalid_argument) _ λ _. record {
            trades = refl;
            realized = refl;
            total_costs = refl;
            delay = refl;
            fills = refl;
            costs = refl;
            pending = λ h. All-append Q p.pending _ h (
                open_orders-Fresh now Q (length p.positions) side qty p.delay p.closing_from_rule
                  fresh is 0);
          }

    pub submit_close_leg-Kept :
        (id j : ℕ) → Returns (submit_close_leg p id j now) (λ p'. Kept now Q p p')
    unfolding submit_close_leg
    submit_close_leg-Kept id j = Returns-then _ (at p (pos id)) _ λ held.
        Returns-then _ (or_throw (get_elem? held.legs j) Error.out_of_range) _ λ l.
          elim (not (state_open l.state))
            as (λ b. Kept now Q p (if b then p else close_open_leg p id j l now)) [
              | true ↦ Kept-refl p
              | false ↦ record {
                trades = refl;
                realized = refl;
                total_costs = refl;
                delay = refl;
                fills = refl;
                costs = refl;
                pending = λ h. All-append Q p.pending _ h (fresh _ (refl, refl), tt);
              }
            ]

  close_legs-Kept :
      (n : ℕ) (p : Portfolio F) (id j : ℕ)
      → IsFresh now Q p
      → Returns (close_legs n p id j now) (Kept now Q p)
  unfolding close_legs
  close_legs-Kept zero p id j fresh = Kept-refl p
  close_legs-Kept (suc n) p id j fresh =
      Returns-then _ (or_throw (get_leg p.positions id j) Error.out_of_bounds) _ λ l.
        Kept-bind (λ x. x) (λ x. x) p
          (if state_open l.state then submit_close_leg p id j now else ok p) _ fresh
          (elim (state_open l.state)
            as (λ b. Returns (if b then submit_close_leg p id j now else ok p) (Kept now Q p)) [
              | true ↦ submit_close_leg-Kept p fresh id j
              | false ↦ Kept-refl p
            ])
          λ p' fresh'. close_legs-Kept n p' id (suc j) fresh'

  pub submit_close-Kept :
      (p : Portfolio F) (id : ℕ) → IsFresh now Q p → Returns (submit_close p id now) (Kept now Q p)
  unfolding submit_close
  submit_close-Kept p id fresh = Returns-then _ (at p (pos id)) _ λ held.
      Returns-bind _ _ (cancel_openings id p.positions p.pending) _
        (cancel_openings-All Q id p.positions p.pending)
        λ swept k.
          Returns-map _ _ (close_legs (length held.legs) (withdrawn p swept) id 0 now)
            (λ b. Kept-trans p (withdrawn p swept) b (record {
              trades = refl;
              realized = refl;
              total_costs = refl;
              delay = refl;
              fills = refl;
              costs = refl;
              pending = k;
            }))
            (close_legs-Kept (length held.legs) (withdrawn p swept) id 0 fresh)
