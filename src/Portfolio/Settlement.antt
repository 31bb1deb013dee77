-- ===== src/Portfolio/Settlement.antt =====
-- `settle_expiry` keeps the ledger: it settles legs, and then drops the orders that work against what
-- has settled.
use volforge.Prelude.{
  ℕ, suc, ◌≡◌, refl, sym, ap, ◌∙◌, subst, inl, inr, true, false, some, List, [], ◌∷◌, ◌++◌, arith,
  Bool-cases, get_elem?, All, All-append, All-left, All-map, int_laws, parts_of_eq, Result, ok, err,
  ok-injective, Safe, Safe-bind,
}
use volforge.Types.{Date, Timestamp, Money, InstrumentId}
use volforge.Instrument.{InstrumentRegistry, InstrumentSpec, spec}
use volforge.Market.{MarketView}
use volforge.Double.{Double}
use volforge.Portfolio.{Portfolio, Leg, Position, PendingOrder, get_leg, set_leg, live}
use volforge.Portfolio.Submit.{Swept}
use volforge.Portfolio.Expiry.{
  expires, settled_leg, unopened, drop_settled, settle_one, settle_price, settle_leg, settle_legs,
  settle_positions, settle_expiry,
}
use volforge.Portfolio.Legs.{booked, booked_total-set_leg}
use volforge.Portfolio.Matching.{
  Matches, Apart, Distinct-middle, Ledger, Ledger-unshift, set_leg-Matches, All-middle,
}
use volforge.Portfolio.Accounting.{Balanced, spec-Safe}
use volforge.Portfolio.Settling.{
  Works, Settling, Settling-step, apart-Works, LegsAt, LegsAt-set_leg, AllAt, AllAt-set_leg,
  AllAt-all,
}
use mathlib.Core.List.{append_assoc}

Safe_self : {A : Type 0} (x : Result A) → Safe x (λ _. Unit {0}) → Safe x (λ a. x ≡ ok a)
Safe_self (ok a) h = refl
Safe_self (err e) h = h

spec_known : (r : InstrumentRegistry) (id : InstrumentId) → Safe (spec r id) (λ s. spec r id ≡ ok s)
spec_known r id = Safe_self (spec r id) (spec-Safe r id)

unopened-booked : (o : PendingOrder) (l : Leg) → booked (unopened o l) ≡ booked l
unopened-booked o l = ground arith

module _ (r : InstrumentRegistry) (expiry : Date) where
  working_leg :
      (ps : List Position) (o : PendingOrder)
      → Works r expiry ps o
      → (l : Leg) × (get_leg ps o.position o.leg_index ≡ some l)
  working_leg ps o (inl m) = (m.leg, m.found)
  working_leg ps o (inr st) = (st.leg, st.found)

  -- An order for an instrument that has not expired is not stale.
  still-Matches :
      (ps : List Position) (o : PendingOrder) (s : InstrumentSpec)
      → spec r o.instrument ≡ ok s
      → expires s expiry ≡ false
      → Works r expiry ps o
      → Matches ps o
  still-Matches ps o s e h (inl m) = m
  still-Matches ps o s e h (inr st) =
      let (t, known, gone) = st.expired in
      let one : t ≡ s = ok-injective t s (sym known ∙ e) in
      let here : expires s expiry ≡ true = subst (λ y. expires y expiry ≡ true) one gone in cc

  Apart-All-Works :
      (ps : List Position) (o : PendingOrder) (v : Leg) (os : List PendingOrder)
      → All (Apart o) os
      → All (Works r expiry ps) os
      → All (Works r expiry (set_leg ps o.position o.leg_index v)) os
  Apart-All-Works ps o v [] a w = tt
  Apart-All-Works ps o v (x ∷ xs) (a, as') (w, ws) =
      (apart-Works r expiry ps o.position o.leg_index v x a w, Apart-All-Works ps o v xs as' ws)

  Apart-All-Matches :
      (ps : List Position) (o : PendingOrder) (v : Leg) (os : List PendingOrder)
      → All (Apart o) os
      → All (Matches ps) os
      → All (Matches (set_leg ps o.position o.leg_index v)) os
  Apart-All-Matches ps o v [] a m = tt
  Apart-All-Matches ps o v (x ∷ xs) (a, as') (m, ms) =
      (set_leg-Matches ps o x v a m, Apart-All-Matches ps o v xs as' ms)

  -- An order is dropped.
  Settling-drop :
      (realized : Money) (ps : List Position) (o : PendingOrder) (xs ys : List PendingOrder)
      (l : Leg)
      → get_leg ps o.position o.leg_index ≡ some l
      → Settling r expiry realized ps (xs ++ (o ∷ ys))
      → Settling r expiry realized (set_leg ps o.position o.leg_index (unopened o l)) (xs ++ ys)
  Settling-drop realized ps o xs ys l found g =
      let (apart, distinct) = Distinct-middle o xs ys g.distinct in
      let (_, works) = All-middle (Works r expiry ps) o xs ys g.working in
      let v = unopened o l in
      record {
        booked_all = omega (
          int_laws,
          parts_of_eq g.booked_all,
          parts_of_eq (unopened-booked o l),
          parts_of_eq (booked_total-set_leg ps o.position o.leg_index v found),
        );
        working = Apart-All-Works ps o v (xs ++ ys) apart works;
        distinct = distinct;
      }

  abbrev DropsTo : Money → List PendingOrder → Swept → Type 0
  DropsTo realized kept s = Ledger realized s.0 (kept ++ s.1)

  drop_settled-Ledger :
      (realized : Money) (os : List PendingOrder) (ps : List Position) (kept : List PendingOrder)
      → All (Matches ps) kept
      → Settling r expiry realized ps (kept ++ os)
      → Safe (drop_settled r expiry ps os) (DropsTo realized kept)
  unfolding drop_settled
  drop_settled-Ledger realized [] ps kept m g = record {
    booked_all = g.booked_all;
    matched = All-append _ kept [] m tt;
    distinct = g.distinct;
  }
  drop_settled-Ledger realized (o ∷ os) ps kept m g =
      let (w, _) = All-middle (Works r expiry ps) o kept os g.working in
      let (apart, _) = Distinct-middle o kept os g.distinct in
      Safe-bind _ _ (spec r o.instrument) _ (spec_known r o.instrument) λ s e.
        elim (Bool-cases (expires s expiry)) [
          | inl x ↦
              let (l, found) = working_leg ps o w in
              let v = unopened o l in
              let ps' = set_leg ps o.position o.leg_index v in
              let rest =
                drop_settled-Ledger realized os ps' kept
                  (Apart-All-Matches ps o v kept (All-left _ kept os apart) m)
                  (Settling-drop realized ps o kept os l found g) in
              rw (x, found) (Safe-bind _ _ (drop_settled r expiry ps' os) _ rest λ t h. h)
          | inr x ↦
              let here = still-Matches ps o s e x w in
              let rest =
                drop_settled-Ledger realized os ps (kept ++ (o ∷ []))
                  (All-append _ kept (o ∷ []) m (here, tt))
                  (subst (Settling r expiry realized ps) (sym (append_assoc kept (o ∷ []) os)) g) in
              rw x (
                Safe-bind _ _ (drop_settled r expiry ps os) _ rest
                  λ t h. Ledger-unshift realized t.0 o kept t.1 h)
        ]

module _ {F : Type 0} ⦃d : Double F⦄ (r : InstrumentRegistry) (expiry : Date) where
  abbrev SettlingAt : Portfolio F → Type 0
  SettlingAt p = Settling r expiry p.realized p.positions p.pending

  -- What a loop finds: the legs and the positions that it has still to visit.
  abbrev Ahead : ℕ → ℕ → List Leg → List Position → Portfolio F → Type 0
  Ahead i j ls qs p = SettlingAt p × LegsAt p.positions i j ls × AllAt p.positions (suc i) qs

  settle_one-Ahead :
      (p : Portfolio F) (i j : ℕ) (l : Leg) (ls : List Leg) (qs : List Position)
      → (s : InstrumentSpec) (level : F) (when : Timestamp) → Ahead i j (l ∷ ls) qs p
      → live l ≡ true
      → spec r l.instrument ≡ ok s
      → expires s expiry ≡ true
      → Ahead i (suc j) ls qs (settle_one p i j l s level when)
  settle_one-Ahead p i j l ls qs s level when (g, (found, rest), later) h e x =
      let v = settled_leg l (settle_price s level) when in
      (
        Settling-step r expiry p.realized _ p.positions i j l v p.pending found h refl (s, e, x)
            refl g,
        LegsAt-set_leg p.positions i j i (suc j) v ls (inr (omega arith)) rest,
        AllAt-set_leg p.positions i j (suc i) v qs (omega arith) later,
      )

  settle_leg-Ahead :
      (level : F) (when : Timestamp) (p : Portfolio F) (i j : ℕ) (l : Leg) (ls : List Leg)
      → (qs : List Position) → Ahead i j (l ∷ ls) qs p
      → Safe (settle_leg r expiry level when p i j l) (λ s. Ahead i (suc j) ls qs s.0)
  unfolding settle_leg
  settle_leg-Ahead level when p i j l ls qs g = elim (Bool-cases (live l)) [
    | inr h ↦ rw h (g.0, g.1.1, g.2)
    | inl h ↦ rw h (
        Safe-bind _ _ (spec r l.instrument) _ (spec_known r l.instrument) λ s e.
          elim (Bool-cases (expires s expiry)) [
            | inr x ↦ rw x (g.0, g.1.1, g.2)
            | inl x ↦ rw x (settle_one-Ahead p i j l ls qs s level when g h e x)
          ])
  ]

  settle_legs-Ahead :
      (level : F) (when : Timestamp) (ls : List Leg) (p : Portfolio F) (i j : ℕ)
      → (qs : List Position) → Ahead i j ls qs p
      → Safe
          (settle_legs r expiry level when p i j ls)
          (λ s. SettlingAt s.0 × AllAt (s.0).positions (suc i) qs)
  unfolding settle_legs
  settle_legs-Ahead level when [] p i j qs g = (g.0, g.2)
  settle_legs-Ahead level when (l ∷ ls) p i j qs g =
      Safe-bind _ _ (settle_leg r expiry level when p i j l) _
        (settle_leg-Ahead level when p i j l ls qs g)
        λ s h.
          Safe-bind _ _ (settle_legs r expiry level when s.0 i (suc j) ls) _
            (settle_legs-Ahead level when ls s.0 i (suc j) qs h) λ t k. k

  settle_positions-Settling :
      (level : F) (when : Timestamp) (qs : List Position) (p : Portfolio F) (i : ℕ)
      → SettlingAt p
      → AllAt p.positions i qs
      → Safe (settle_positions r expiry level when p i qs) (λ s. SettlingAt s.0)
  unfolding settle_positions
  settle_positions-Settling level when [] p i g a = g
  settle_positions-Settling level when (q ∷ qs) p i g (a, later) =
      Safe-bind _ _ (settle_legs r expiry level when p i 0 q.legs) _
        (settle_legs-Ahead level when q.legs p i 0 qs (g, a, later))
        λ s h.
          Safe-bind _ _ (settle_positions r expiry level when s.0 (suc i) qs) _
            (settle_positions-Settling level when qs s.0 (suc i) h.0 h.1) λ t k. k

-- Cash settlement touches only legs that are there, and leaves a balanced portfolio balanced: it books
-- what the settled legs earned, and drops the orders that worked against them.
pub settle_expiry-Balanced :
    {F : Type 0} ⦃d : Double F⦄ (m : MarketView) (p : Portfolio F) (expiry : Date) (level : F)
    → (when : Timestamp) → Balanced p
    → Safe (settle_expiry m p expiry level when) (λ s. Balanced s.0)
unfolding settle_expiry
settle_expiry-Balanced m p expiry level when g =
    let r = m.registry in
    let start : SettlingAt r expiry p = record {
      booked_all = g.booked_all;
      working = All-map _ _ (λ o w. inl w) p.pending g.matched;
      distinct = g.distinct;
    } in
    Safe-bind _ _ (settle_positions r expiry level when p 0 p.positions) _
      (settle_positions-Settling r expiry level when p.positions p 0 start
        (AllAt-all p.positions 0 p.positions λ k. ap (get_elem? p.positions) (omega arith)))
      λ s h.
        Safe-bind _ _ (drop_settled r expiry (s.0).positions (s.0).pending) _
          (drop_settled-Ledger r expiry (s.0).realized (s.0).pending (s.0).positions [] tt h)
          λ t k. k
