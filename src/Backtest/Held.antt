-- ===== src/Backtest/Held.antt =====
-- What the live legs of a portfolio are held on, and that neither the orders that are dropped nor those
-- that are abandoned change it.
use volforge.Prelude.{
  ℕ, zero, suc, ◌≡◌, refl, sym, ◌∙◌, subst, true, false, List, [], ◌∷◌, arith, get_elem?, set, All,
  Error, ok, ◌>>=◌, or_throw, Returns, Returns-bind, Returns-then,
}
use volforge.Types.{Date, InstrumentId}
use volforge.Instrument.{InstrumentRegistry, spec}
use volforge.Portfolio.{Portfolio, Position, Leg, PendingOrder, get_leg, set_leg, live}
use volforge.Portfolio.Submit.{
  Swept, sweep, write_leg, abandon, abandoned, cancel_working_orders, rearm,
}
use volforge.Portfolio.Expiry.{expires, unopened, drop_one, drop_settled}

-- `P` holds of the instrument of each live leg.
unfoldable pub Holds : (InstrumentId → Type 0) → Leg → Type 0
Holds P l = live l ≡ true → P l.instrument

abbrev pub HeldLegs : (InstrumentId → Type 0) → List Leg → Type 0
HeldLegs P = All (Holds P)

abbrev pub Held : (InstrumentId → Type 0) → List Position → Type 0
Held P = All (λ q. HeldLegs P q.legs)

All-set :
    (P : InstrumentId → Type 0) (ls : List Leg) (j : ℕ) (v : Leg)
    → HeldLegs P ls
    → Holds P v
    → HeldLegs P (set ls j v)
All-set P [] j v a h = tt
All-set P (l ∷ ls) zero v (a, as') h = (h, as')
All-set P (l ∷ ls) (suc j) v (a, as') h = (a, All-set P ls j v as' h)

set_leg-Held :
    (P : InstrumentId → Type 0) (ps : List Position) (i j : ℕ) (v : Leg)
    → Held P ps
    → Holds P v
    → Held P (set_leg ps i j v)
unfolding set_leg
set_leg-Held P [] i j v a h = tt
set_leg-Held P (p ∷ ps) zero j v (a, as') h = (All-set P p.legs j v a h, as')
set_leg-Held P (p ∷ ps) (suc i) j v (a, as') h = (a, set_leg-Held P ps i j v as' h)

get_leg-Holds :
    (P : InstrumentId → Type 0) (ps : List Position) (i j : ℕ)
    → Held P ps
    → Returns (or_throw (get_leg ps i j) Error.out_of_bounds) (Holds P)
unfolding get_leg
get_leg-Holds P [] i j a = tt
get_leg-Holds P (p ∷ ps) zero j (a, as') = found p.legs j a
  where
    found :
        (ls : List Leg) (j : ℕ)
        → HeldLegs P ls
        → Returns (or_throw (get_elem? ls j) Error.out_of_bounds) (Holds P)
    found [] j a = tt
    found (l ∷ ls) zero (a, as') = a
    found (l ∷ ls) (suc j) (a, as') = found ls j as'
get_leg-Holds P (p ∷ ps) (suc i) j (a, as') = get_leg-Holds P ps i j as'

-- A leg that is as live as another, of the same instrument.
Holds-same :
    (P : InstrumentId → Type 0) (l v : Leg)
    → live v ≡ live l
    → v.instrument ≡ l.instrument
    → Holds P l
    → Holds P v
unfolding Holds
Holds-same P l v e k h = λ alive. subst P (sym k) (h (sym e ∙ alive))

unopened-Holds :
    (P : InstrumentId → Type 0) (o : PendingOrder) (l : Leg) → Holds P l → Holds P (unopened o l)
unopened-Holds P o l = Holds-same P l (unopened o l) (ground arith) (ground arith)

abandoned-Holds :
    (P : InstrumentId → Type 0) (o : PendingOrder) (l : Leg) → Holds P l → Holds P (abandoned o l)
abandoned-Holds P o l = Holds-same P l (abandoned o l) (ground arith) (ground arith)

pub drop_settled-Held :
    (P : InstrumentId → Type 0) (r : InstrumentRegistry) (expiry : Date) (os : List PendingOrder)
    (ps : List Position)
    → Held P ps
    → Returns (drop_settled r expiry ps os) (λ s. Held P s.0)
unfolding drop_settled
drop_settled-Held P r expiry [] ps a = a
drop_settled-Held P r expiry (o ∷ os) ps a = Returns-then _ (spec r o.instrument) _ λ s.
    elim (expires s expiry)
      as (λ b.
        Returns {A = Swept}
          (drop_one b ps o >>= λ ps'. drop_settled r expiry ps' os >>= λ rest. ok (sweep b o rest))
          (λ t. Held P t.0)) [
            | true ↦
                Returns-bind (Held P) _ (write_leg ps o (unopened o)) _
                  (Returns-bind (Holds P) (Held P)
                    (or_throw (get_leg ps o.position o.leg_index) Error.out_of_bounds) _
                    (get_leg-Holds P ps o.position o.leg_index a)
                    λ l h.
                      set_leg-Held P ps o.position o.leg_index (unopened o l) a
                        (unopened-Holds P o l h))
                  λ ps' h.
                    Returns-bind (λ t. Held P t.0) _ (drop_settled r expiry ps' os) _
                      (drop_settled-Held P r expiry os ps' h) λ t k. k
            | false ↦
                Returns-bind (λ t. Held P t.0) _ (drop_settled r expiry ps os) _
                  (drop_settled-Held P r expiry os ps a) λ t k. k
          ]

abandon-Held :
    (P : InstrumentId → Type 0) (os : List PendingOrder) (ps : List Position)
    → Held P ps
    → Returns (abandon ps os) (λ s. Held P s.0)
unfolding abandon
abandon-Held P [] ps a = a
abandon-Held P (o ∷ os) ps a =
    Returns-bind (Holds P) _ (or_throw (get_leg ps o.position o.leg_index) Error.out_of_bounds) _
      (get_leg-Holds P ps o.position o.leg_index a)
      λ l h.
        Returns-bind (λ s. Held P s.0) _
          (abandon (set_leg ps o.position o.leg_index (abandoned o l)) os) _
          (abandon-Held P os (set_leg ps o.position o.leg_index (abandoned o l))
            (set_leg-Held P ps o.position o.leg_index (abandoned o l) a (abandoned-Holds P o l h)))
          λ s k. k

pub cancel_working_orders-Held :
    {F : Type 0} (P : InstrumentId → Type 0) (p : Portfolio F)
    → Held P p.positions
    → Returns (cancel_working_orders p) (λ s. Held P (s.0).positions × ((s.0).pending ≡ []))
unfolding cancel_working_orders
cancel_working_orders-Held P p a =
    Returns-bind (λ s. Held P s.0) _ (abandon p.positions p.pending) _
      (abandon-Held P p.pending p.positions a)
      λ s k. Returns-then _ (rearm s.0 s.1 p.rules) _ λ rules. (k, refl)
