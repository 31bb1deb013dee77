-- ===== src/Portfolio/Closing.antt =====
-- `submit_close_leg` and `submit_close` keep the ledger.

use volforge.Prelude.{
  ℕ, zero, suc, ◌+◌, ◌≤◌, ◌≡◌, refl, ◌∙◌, inl, inr, true, false, Option, none, some, List, [], ◌∷◌,
  ◌++◌, arith, Bool-cases, length, get_elem?, pos, int_laws, Error, or_throw, Safe, Safe-bind,
  Safe-map, is_fault,
}
use volforge.Types.{Timestamp, Money}
use volforge.Portfolio.{
  Portfolio, Leg, LegState, Position, PendingOrder, at, get_leg, set_leg, open_leg, state_open,
}
use volforge.Portfolio.Legs.{leg_count, leg_count-set_leg, get_leg_total, leg_count_of}
use volforge.Portfolio.Submit.{
  withdraws, cancel_openings, cancelled, withdrawn, submit_close_leg, close_open_leg, close_order,
  close_legs, submit_close,
}
use volforge.Portfolio.Matching.{
  Ledger, Ledger-step, Ledger-shift, Ledger-unshift, Ledger-close, middle_leg,
}
use volforge.Portfolio.Accounting.{Balanced}

pub state_open→eq : (s : LegState) → state_open s ≡ true → s ≡ open_leg
state_open→eq s h = ground arith

pub or_throw-cases :
    {A : Type 0} (o : Option A) (e : Error)
    → is_fault e ≡ false
    → Safe (or_throw o e) (λ a. o ≡ some a)
or_throw-cases none e h = h
or_throw-cases (some a) e h = refl

pub at-Safe :
    {F : Type 0} (p : Portfolio F) (i : ℕ)
    → Safe (at p (pos i)) (λ q. get_elem? p.positions i ≡ some q)
unfolding at
at-Safe p i = or_throw-cases (get_elem? p.positions i) Error.out_of_range refl

get_leg_of :
    (ps : List Position) (i j : ℕ) (q : Position) (l : Leg)
    → get_elem? ps i ≡ some q
    → get_elem? q.legs j ≡ some l
    → get_leg ps i j ≡ some l
unfolding get_leg
get_leg_of ps i j q l h k = rw (h, get_leg) k

-- The ledger, with the number of legs of position `id` as before.
abbrev Keeps : Money → ℕ → ℕ → List Position → List PendingOrder → Type 0
Keeps r id n ps os = Ledger r ps os × (leg_count ps id ≡ n)

cancel_openings-Keeps :
    (r : Money) (id n : ℕ) (os : List PendingOrder) (ps : List Position) (kept : List PendingOrder)
    → Keeps r id n ps (kept ++ os)
    → Safe (cancel_openings id ps os) (λ s. Keeps r id n s.0 (kept ++ s.1))
unfolding cancel_openings
cancel_openings-Keeps r id n [] ps kept g = g
cancel_openings-Keeps r id n (o ∷ os) ps kept (g, c) = elim (Bool-cases (withdraws id o)) [
  | inl e ↦
      let w = middle_leg r ps o kept os g in
      let v = cancelled w.leg in
      let ps' = set_leg ps o.position o.leg_index v in
      let rest = cancel_openings-Keeps r id n os ps' kept (
        Ledger-step r r ps o kept os w.leg v g w.found (omega int_laws),
        leg_count-set_leg ps o.position o.leg_index v id ∙ c,
      ) in
      rw (e, w.found) (Safe-bind _ _ (cancel_openings id ps' os) _ rest λ s h. h)
  | inr e ↦
      let rest =
        cancel_openings-Keeps r id n os ps (kept ++ (o ∷ [])) (Ledger-shift r ps o kept os g, c) in
      rw e (
        Safe-bind _ _ (cancel_openings id ps os) _ rest
          λ s h. (Ledger-unshift r s.0 o kept s.1 h.0, h.1))
]

module _ {F : Type 0} where
  abbrev KeepsLegs : ℕ → ℕ → Portfolio F → Type 0
  KeepsLegs id n p = Keeps p.realized id n p.positions p.pending

  close_open_leg-KeepsLegs :
      (p : Portfolio F) (id n j : ℕ) (l : Leg) (now : Timestamp)
      → KeepsLegs id n p
      → get_leg p.positions id j ≡ some l
      → l.state ≡ open_leg
      → KeepsLegs id n (close_open_leg p id j l now)
  close_open_leg-KeepsLegs p id n j l now (g, c) found state = (
    Ledger-close p.realized p.positions (close_order p id j l now) p.pending l g found state refl
        refl,
    leg_count-set_leg p.positions id j _ id ∙ c,
  )

  submit_close_leg-KeepsLegs :
      (p : Portfolio F) (id n j : ℕ) (now : Timestamp)
      → KeepsLegs id n p
      → Safe (submit_close_leg p id j now) (KeepsLegs id n)
  unfolding submit_close_leg
  submit_close_leg-KeepsLegs p id n j now g =
      Safe-bind _ _ (at p (pos id)) _ (at-Safe p id) λ q at_id.
        Safe-bind _ _ (or_throw (get_elem? q.legs j) Error.out_of_range) _
          (or_throw-cases (get_elem? q.legs j) Error.out_of_range refl)
          λ l at_j. elim (Bool-cases (state_open l.state)) [
            | inl e ↦ rw e (
                close_open_leg-KeepsLegs p id n j l now g
                  (get_leg_of p.positions id j q l at_id at_j) (state_open→eq l.state e))
            | inr e ↦ rw e g
          ]

  close_legs-KeepsLegs :
      (k : ℕ) (p : Portfolio F) (id n j : ℕ) (now : Timestamp)
      → j + k ≤ n
      → KeepsLegs id n p
      → Safe (close_legs k p id j now) (KeepsLegs id n)
  unfolding close_legs
  close_legs-KeepsLegs zero p id n j now h g = g
  close_legs-KeepsLegs (suc k) p id n j now h g =
      let (l, found) = get_leg_total p.positions id j (omega (arith, g.1)) in
      let next = λ (p' : Portfolio F) (g' : KeepsLegs id n p').
        close_legs-KeepsLegs k p' id n (suc j) now (omega arith) g' in
      rw found (elim (Bool-cases (state_open l.state)) [
        | inl e ↦ rw e (
            Safe-bind _ _ (submit_close_leg p id j now) _
              (submit_close_leg-KeepsLegs p id n j now g) next)
        | inr e ↦ rw e (next p g)
      ])

  -- From a balanced portfolio, closing one leg, or a whole position, reads and writes only legs that
  -- are there, and if it returns, the portfolio is balanced again.
  pub submit_close-Balanced :
      (p : Portfolio F) (id j : ℕ) (now : Timestamp)
      → Balanced p
      → Safe (submit_close_leg p id j now) Balanced × Safe (submit_close p id now) Balanced
  unfolding submit_close
  submit_close-Balanced p id j now g = (
    Safe-map _ _ (submit_close_leg p id j now) (λ p' h. h.0)
        (submit_close_leg-KeepsLegs p id (leg_count p.positions id) j now (g, refl)),
    Safe-bind _ _ (at p (pos id)) _ (at-Safe p id) λ q at_id.
        Safe-bind _ _ (cancel_openings id p.positions p.pending) _
          (cancel_openings-Keeps p.realized id (length q.legs) p.pending p.positions []
            (g, leg_count_of p.positions id q at_id))
          λ s h.
            Safe-map _ _ (close_legs (length q.legs) (withdrawn p s) id 0 now) (λ p' b. b.0)
              (close_legs-KeepsLegs (length q.legs) (withdrawn p s) id (length q.legs) 0 now
                (omega arith) h),
  )
