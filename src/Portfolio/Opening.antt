-- ===== src/Portfolio/Opening.antt =====
-- `submit_open` keeps the ledger, and `new_portfolio` starts one.
use Prim.Native.String.{String}
use mathlib.Core.Option.{some-injective}
use volforge.Prelude.{
  ℕ, zero, suc, ◌+◌, ◌≤◌, ◌<◌, ◌≡◌, refl, ap, ◌∙◌, subst, inl, inr, Bool, some, List, [], ◌∷◌, ◌++◌,
  map, arith, Bool-cases, length, get_elem?, All, length-append, All-append, All-map, ℤ, pos, ◌+ℤ◌,
  ltb_ℤ, leb_ℤ, int_laws, parts_of_eq, Error, throw_if, Safe, Safe-bind, throw_if-Safe,
}
use volforge.Types.{Timestamp, Qty, InstrumentId}
use volforge.Costs.{Side, CostPolicy}
use volforge.Portfolio.{Portfolio, FillModel, Leg, Position, PendingOrder, get_leg, new_portfolio}
use volforge.Portfolio.Legs.{sum_booked, booked_total, booked_total-append}
use volforge.Portfolio.Submit.{new_leg, open_orders, opened, signed_qty, is_empty, submit_open}
use volforge.Portfolio.Matching.{Matches, Apart, Distinct}
use volforge.Portfolio.Accounting.{Balanced}

get_leg-append :
    (ps qs : List Position) (i j : ℕ) (l : Leg)
    → get_leg ps i j ≡ some l
    → (i < length ps) × (get_leg (ps ++ qs) i j ≡ some l)
unfolding get_leg
get_leg-append [] qs i j l h = cc
get_leg-append (p ∷ ps) qs zero j l h = (omega arith, h)
get_leg-append (p ∷ ps) qs (suc i) j l h =
    let (lt, rest) = get_leg-append ps qs i j l h in (omega arith, rest)

get_leg-last :
    (ps : List Position) (p : Position) (j : ℕ)
    → get_leg (ps ++ (p ∷ [])) (length ps) j ≡ get_elem? p.legs j
unfolding get_leg
get_leg-last [] p j = refl
get_leg-last (q ∷ ps) p j = get_leg-last ps p j

get_elem?-new_legs :
    (qty : Qty) (is : List InstrumentId) (k : ℕ) (i : InstrumentId)
    → get_elem? is k ≡ some i
    → get_elem? (map (new_leg qty) is) k ≡ some (new_leg qty i)
get_elem?-new_legs qty [] k i h = cc
get_elem?-new_legs qty (x ∷ is) zero i h =
    ap (λ (y : InstrumentId). some (new_leg qty y)) (some-injective _ _ h)
get_elem?-new_legs qty (x ∷ is) (suc k) i h = get_elem?-new_legs qty is k i h

sum_booked-new_legs :
    (qty : Qty) (is : List InstrumentId) → sum_booked (map (new_leg qty) is) ≡ pos 0
unfolding sum_booked
sum_booked-new_legs qty [] = refl
sum_booked-new_legs qty (i ∷ is) = omega (int_laws, parts_of_eq (sum_booked-new_legs qty is))

-- Orders for legs of position `id` from leg `j` on.
abbrev From : ℕ → ℕ → PendingOrder → Type 0
From id j o = (o.position ≡ id) × (j ≤ o.leg_index)

module _ (id : ℕ) (side : Side) (qty : Qty) (now eligible : Timestamp) (from_rule : Bool) where
  open_orders-From :
      (is : List InstrumentId) (j : ℕ)
      → All (From id j) (open_orders id j side qty now eligible from_rule is)
  unfolding open_orders
  open_orders-From [] j = tt
  open_orders-From (i ∷ is) j = (
    (refl, omega arith),
    All-map _ _ (λ o (e, h). (e, omega arith)) _ (open_orders-From is (suc j)),
  )

  open_orders-Distinct :
      (is : List InstrumentId) (j : ℕ)
      → Distinct (open_orders id j side qty now eligible from_rule is)
  unfolding open_orders
  open_orders-Distinct [] j = tt
  open_orders-Distinct (i ∷ is) j = (
    All-map _ _ (λ o (e, h). inr (λ (f : j ≡ o.leg_index). absurd (omega arith))) _
        (open_orders-From is (suc j)),
    open_orders-Distinct is (suc j),
  )

  open_orders-Matches :
      (ps : List Position) (p : Position) (q : Qty) (is : List InstrumentId) (j : ℕ)
      → id ≡ length ps
      → ((k : ℕ) (i : InstrumentId)
          → get_elem? is k ≡ some i
          → get_elem? p.legs (j + k) ≡ some (new_leg q i))
      → All (Matches (ps ++ (p ∷ []))) (open_orders id j side qty now eligible from_rule is)
  unfolding open_orders
  open_orders-Matches ps p q [] j e legs = tt
  open_orders-Matches ps p q (i ∷ is) j e legs =
      let here : get_elem? p.legs j ≡ some (new_leg q i) =
        subst (λ n. get_elem? p.legs n ≡ some (new_leg q i)) (omega arith) (legs 0 i refl) in
      (
        record {
          leg = new_leg q i;
          found = rw e (get_leg-last ps p j ∙ here);
          waits = refl;
          same = refl;
        },
        open_orders-Matches ps p q is (suc j) e λ k x h.
            subst (λ n. get_elem? p.legs n ≡ some (new_leg q x)) (omega arith) (legs (suc k) x h),
      )

Matches-append : (ps qs : List Position) (o : PendingOrder) → Matches ps o → Matches (ps ++ qs) o
Matches-append ps qs o w = record {
  leg = w.leg;
  found = (get_leg-append ps qs o.position o.leg_index w.leg w.found).1;
  waits = w.waits;
  same = w.same;
}

Matches-lt : (ps : List Position) (o : PendingOrder) → Matches ps o → o.position < length ps
Matches-lt ps o w = (get_leg-append ps [] o.position o.leg_index w.leg w.found).0

Distinct-append :
    (n : ℕ) (xs ys : List PendingOrder)
    → Distinct xs
    → Distinct ys
    → All (λ o. o.position < n) xs
    → All (From n 0) ys
    → Distinct (xs ++ ys)
Distinct-append n [] ys dx dy hx hy = dy
Distinct-append n (x ∷ xs) ys (ax, dx) dy (hx, hxs) hy = (
  All-append (Apart x) xs ys ax
      (All-map _ _ (λ o (e, _). inl (λ (f : x.position ≡ o.position). absurd (omega arith))) ys hy),
  Distinct-append n xs ys dx dy hxs hy,
)

booked_total-single : (p : Position) → booked_total (p ∷ []) ≡ sum_booked p.legs
unfolding booked_total
booked_total-single p = omega int_laws

module _ {F : Type 0} where
  opened-Balanced :
      (p : Portfolio F) (label : String) (is : List InstrumentId) (side : Side) (qty : Qty)
      → (now : Timestamp) → Balanced p
      → Balanced (opened p label is side qty now)
  opened-Balanced p label is side qty now g =
      let q = signed_qty side qty in
      let id = length p.positions in
      let new : Position = record { id = id; label = label; legs = map (new_leg q) is } in
      let orders = open_orders id 0 side qty now (now +ℤ p.delay) p.closing_from_rule is in
      record {
        booked_all = omega (
          int_laws,
          parts_of_eq g.booked_all,
          parts_of_eq (booked_total-append p.positions (new ∷ [])),
          parts_of_eq (sum_booked-new_legs q is),
          parts_of_eq (booked_total-single new),
        );
        matched =
            All-append (Matches _) p.pending orders
              (All-map _ _ (Matches-append p.positions (new ∷ [])) p.pending g.matched)
              (open_orders-Matches id side qty now (now +ℤ p.delay) p.closing_from_rule p.positions
                new q is 0 refl
                (λ k i h.
                  subst (λ n. get_elem? new.legs n ≡ some (new_leg q i)) (omega arith)
                    (get_elem?-new_legs q is k i h)));
        distinct =
            Distinct-append id p.pending orders g.distinct
              (open_orders-Distinct id side qty now (now +ℤ p.delay) p.closing_from_rule is 0)
              (All-map _ _ (Matches-lt p.positions) p.pending g.matched)
              (open_orders-From id side qty now (now +ℤ p.delay) p.closing_from_rule is 0);
      }

  -- From a balanced portfolio, `submit_open` makes a balanced one, with one more position, and
  -- returns the place of that.
  pub submit_open-Balanced :
      (p : Portfolio F) (label : String) (is : List InstrumentId) (side : Side) (qty : Qty)
      → (now : Timestamp) → Balanced p
      → Safe (submit_open p label is side qty now) (λ r.
        Balanced r.0
        × (r.1 ≡ length p.positions)
        × (length (r.0).positions ≡ length p.positions + 1))
  unfolding submit_open
  submit_open-Balanced p label is side qty now g =
      Safe-bind _ _ (throw_if (is_empty is) Error.invalid_argument) _ (throw_if-Safe _ _ refl)
        λ _ _.
          Safe-bind _ _ (throw_if (leb_ℤ qty (pos 0)) Error.invalid_argument) _
            (throw_if-Safe _ _ refl)
            λ _ _. (
              opened-Balanced p label is side qty now g,
              refl,
              length-append p.positions _ ∙ omega arith,
            )

  pub new_portfolio-Balanced :
      (fills : FillModel F) (delay : ℤ) (costs : CostPolicy)
      → Safe (new_portfolio fills delay costs) Balanced
  unfolding new_portfolio booked_total
  new_portfolio-Balanced fills delay costs = elim (Bool-cases (ltb_ℤ delay (pos 0))) [
    | inl e ↦ rw e refl
    | inr e ↦ rw e (record { booked_all = refl; matched = tt; distinct = tt })
  ]
