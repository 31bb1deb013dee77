-- ===== src/Portfolio/Settled.antt =====
-- What `settle_expiry` leaves of each leg: the loops over the positions visit every leg once.
use volforge.Prelude.{
  ℕ, suc, ◌≡◌, refl, sym, ap, ◌∙◌, subst, true, false, not, List, [], ◌∷◌, ◌++◌, map, if◌then◌else◌,
  length, set, Result, ok, err, ◌>>=◌, Returns, Returns-bind,
}
use volforge.Types.{Date, Timestamp}
use volforge.Instrument.{InstrumentRegistry, InstrumentSpec, spec}
use volforge.Double.{Double}
use volforge.Portfolio.{Portfolio, Position, Leg, set_leg, live}
use volforge.Portfolio.Expiry.{
  expires, settled_leg, settle_price, settle_one, settle_leg, settle_legs, settle_positions,
}
use mathlib.Core.List.{append_assoc}

set-middle :
    {A : Type 0} (xs : List A) (x v : A) (ys : List A)
    → set (xs ++ (x ∷ ys)) (length xs) v ≡ xs ++ (v ∷ ys)
set-middle [] x v ys = refl
set-middle (a ∷ xs) x v ys = ap (λ (l : List _). a ∷ l) (set-middle xs x v ys)

with_legs : Position → List Leg → Position
with_legs q ls = record q { legs = ls }

set_leg-middle :
    (ps : List Position) (q : Position) (xs : List Leg) (x v : Leg) (ys : List Leg)
    (qs : List Position)
    → set_leg (ps ++ (with_legs q (xs ++ (x ∷ ys)) ∷ qs)) (length ps) (length xs) v
      ≡ ps ++ (with_legs q (xs ++ (v ∷ ys)) ∷ qs)
unfolding set_leg with_legs
set_leg-middle [] q xs x v ys qs = ap (λ ls. record q { legs = ls } ∷ qs) (set-middle xs x v ys)
set_leg-middle (p ∷ ps) q xs x v ys qs =
    ap (λ (l : List Position). p ∷ l) (set_leg-middle ps q xs x v ys qs)

length-snoc : {A : Type 0} (xs : List A) (x : A) → suc (length xs) ≡ length (xs ++ (x ∷ []))
length-snoc [] x = refl
length-snoc (y ∷ xs) x = ap suc (length-snoc xs x)

module _ {F : Type 0} ⦃d : Double F⦄ (r : InstrumentRegistry) (expiry : Date) (level : F)
    (when : Timestamp) where
  -- A live leg of an instrument that expires is settled; any other stays.
  abbrev settled_as : Leg → Result InstrumentSpec → Leg
  settled_as l (err e) = l
  settled_as l (ok s) =
      if not (expires s expiry) then l else settled_leg l (settle_price s level) when

  unfoldable pub settled_if : Leg → Leg
  settled_if l = if not (live l) then l else settled_as l (spec r l.instrument)

  abbrev pub settled_position : Position → Position
  settled_position q = record q { legs = map settled_if q.legs }

  settle_leg_lem :
      (p : Portfolio F) (ps : List Position) (q : Position) (xs : List Leg) (l : Leg)
      (ys : List Leg) (qs : List Position)
      → p.positions ≡ ps ++ (with_legs q (xs ++ (l ∷ ys)) ∷ qs)
      → Returns
          (settle_leg r expiry level when p (length ps) (length xs) l)
          (λ s. (s.0).positions ≡ ps ++ (with_legs q (xs ++ (settled_if l ∷ ys)) ∷ qs))
  unfolding settle_leg settled_if
  settle_leg_lem p ps q xs l ys qs h =
      elim (not (live l))
        as (λ b.
          Returns {A = Portfolio F × ℕ}
            (if b
              then ok (p, 0)
              else (spec r l.instrument >>= λ s.
                  if not (expires s expiry)
                  then ok (p, 0)
                  else ok (settle_one p (length ps) (length xs) l s level when, 1)))
            (λ s.
              (s.0).positions
              ≡ ps
                ++ (with_legs q (xs ++ ((if b then l else settled_as l (spec r l.instrument)) ∷ ys))
                    ∷ qs))) [ true ↦ h | false ↦ visited (spec r l.instrument) ]
    where
      visited :
          (x : Result InstrumentSpec)
          → Returns {A = Portfolio F × ℕ}
              (x >>= λ s.
                if not (expires s expiry)
                then ok (p, 0)
                else ok (settle_one p (length ps) (length xs) l s level when, 1))
              (λ s. (s.0).positions ≡ ps ++ (with_legs q (xs ++ (settled_as l x ∷ ys)) ∷ qs))
      visited (err e) = tt
      visited (ok s) =
          elim (not (expires s expiry))
            as (λ b.
              Returns {A = Portfolio F × ℕ}
                (if b
                  then ok (p, 0)
                  else ok (settle_one p (length ps) (length xs) l s level when, 1))
                (λ t.
                  (t.0).positions
                  ≡ ps
                    ++ (with_legs q (
                          xs ++ ((if b then l else settled_leg l (settle_price s level) when) ∷ ys))
                        ∷ qs))) [
                          | true ↦ h
                          | false ↦
                              ap
                                (λ x.
                                  set_leg x (length ps) (length xs)
                                    (settled_leg l (settle_price s level) when))
                                h
                              ∙ set_leg-middle ps q xs l (settled_leg l (settle_price s level) when)
                                  ys qs
                        ]

  settle_legs_lem :
      (ls : List Leg) (p : Portfolio F) (ps : List Position) (q : Position) (xs : List Leg)
      (qs : List Position) (j : ℕ)
      → j ≡ length xs
      → p.positions ≡ ps ++ (with_legs q (xs ++ ls) ∷ qs)
      → Returns
          (settle_legs r expiry level when p (length ps) j ls)
          (λ s. (s.0).positions ≡ ps ++ (with_legs q (xs ++ map settled_if ls) ∷ qs))
  unfolding settle_legs
  settle_legs_lem [] p ps q xs qs j e h = h
  settle_legs_lem (l ∷ ls) p ps q xs qs j e h =
      let v = settled_if l in
      let first =
        subst
          (λ i.
            Returns (settle_leg r expiry level when p (length ps) i l)
              (λ s. (s.0).positions ≡ ps ++ (with_legs q (xs ++ (v ∷ ls)) ∷ qs)))
          (sym e) (settle_leg_lem p ps q xs l ls qs h) in
      Returns-bind _ _ (settle_leg r expiry level when p (length ps) j l) _ first λ s k.
        Returns-bind _ _ (settle_legs r expiry level when s.0 (length ps) (suc j) ls) _
          (settle_legs_lem ls s.0 ps q (xs ++ (v ∷ [])) qs (suc j) (ap suc e ∙ length-snoc xs v)
            (k ∙ ap (λ ys. ps ++ (with_legs q ys ∷ qs)) (sym (append_assoc xs (v ∷ []) ls))))
          λ t k'.
            k'
            ∙ ap (λ ys. ps ++ (with_legs q ys ∷ qs)) (append_assoc xs (v ∷ []) (map settled_if ls))

  settle_positions_lem :
      (qs : List Position) (p : Portfolio F) (ps : List Position) (i : ℕ)
      → i ≡ length ps
      → p.positions ≡ ps ++ qs
      → Returns
          (settle_positions r expiry level when p i qs)
          (λ s. (s.0).positions ≡ ps ++ map settled_position qs)
  unfolding settle_positions with_legs
  settle_positions_lem [] p ps i e h = h
  settle_positions_lem (q ∷ qs) p ps i e h =
      let v = settled_position q in
      let first =
        subst
          (λ k.
            Returns (settle_legs r expiry level when p k 0 q.legs)
              (λ s. (s.0).positions ≡ ps ++ (v ∷ qs)))
          (sym e) (settle_legs_lem q.legs p ps q [] qs 0 refl h) in
      Returns-bind _ _ (settle_legs r expiry level when p i 0 q.legs) _ first λ s k.
        Returns-bind _ _ (settle_positions r expiry level when s.0 (suc i) qs) _
          (settle_positions_lem qs s.0 (ps ++ (v ∷ [])) (suc i) (ap suc e ∙ length-snoc ps v)
            (k ∙ sym (append_assoc ps (v ∷ []) qs)))
          λ t k'. k' ∙ append_assoc ps (v ∷ []) (map settled_position qs)

  pub settle_positions-all :
      (p : Portfolio F)
      → Returns
          (settle_positions r expiry level when p 0 p.positions)
          (λ s. (s.0).positions ≡ map settled_position p.positions)
  settle_positions-all p = settle_positions_lem p.positions p [] 0 refl refl
