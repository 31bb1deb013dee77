-- ===== src/Backtest/Due.antt =====
-- The expiries that are due, and what settlement leaves of them.
use volforge.Prelude.{
  ◌≡◌, refl, sym, subst, ◌⊎◌, inl, inr, true, false, List, [], ◌∷◌, map, if◌then◌else◌, Bool-cases,
  All-map, ltb_ℤ, eqb_ℤ, eqb_ℤ_iff, Result, ok, err, ◌>>=◌, Returns, Returns-bind, Returns-map,
}
use volforge.Types.{Date, Timestamp, InstrumentId}
use volforge.Instrument.{InstrumentRegistry, InstrumentSpec, spec}
use volforge.Double.{Double}
use volforge.Portfolio.{Position, Leg, live}
use volforge.Portfolio.Expiry.{expires}
use volforge.Portfolio.Settled.{settled_if, settled_position}
use volforge.Backtest.{insert_due, comes_due, due_leg, due_legs, due_from}
use volforge.Backtest.Held.{Holds, HeldLegs, Held}

-- What is due, as a predicate on an instrument.
abbrev pub In : Date → List Date → Type 0
In d [] = ⊥
In d (e ∷ es) = (d ≡ e) ⊎ In d es

module _ (r : InstrumentRegistry) (today : Date) where
  -- The instrument is known, and its expiry is listed if it has come.
  unfoldable pub Listed : List Date → InstrumentId → Type 0
  Listed due id =
      (s : InstrumentSpec) × (spec r id ≡ ok s) × (comes_due today s ≡ true → In s.expiry due)

  insert_due-In : (d : Date) (due : List Date) → In d (insert_due d due)
  unfolding insert_due
  insert_due-In d [] = inl refl
  insert_due-In d (e ∷ es) = elim (Bool-cases (ltb_ℤ d e)) [
    | inl x ↦ rw x (inl refl)
    | inr x ↦ elim (Bool-cases (eqb_ℤ d e)) [
      | inl y ↦ rw (x, y) (inl ((eqb_ℤ_iff d e).0 y))
      | inr y ↦ rw (x, y) (inr (insert_due-In d es))
    ]
  ]

  insert_due-keeps : (x d : Date) (due : List Date) → In x due → In x (insert_due d due)
  unfolding insert_due
  insert_due-keeps x d [] h = absurd h
  insert_due-keeps x d (e ∷ es) h = elim (Bool-cases (ltb_ℤ d e)) [
    | inl k ↦ rw k (inr h)
    | inr k ↦ elim (Bool-cases (eqb_ℤ d e)) [
      | inl y ↦ rw (k, y) h
      | inr y ↦
          rw (k, y)
            (elim h [ inl same ↦ inl same | inr later ↦ inr (insert_due-keeps x d es later) ])
    ]
  ]

  unfoldable pub Grows : List Date → List Date → Type 0
  Grows due due' = (x : Date) → In x due → In x due'

  abbrev Lists : List Leg → List Date → List Date → Type 0
  Lists ls due due' = Grows due due' × HeldLegs (Listed due') ls

  due_leg-dead : (l : Leg) (due : List Date) → live l ≡ false → due_leg r today l due ≡ ok due
  unfolding due_leg
  due_leg-dead l due e = rw e refl

  due_leg-live :
      (l : Leg) (due : List Date)
      → live l ≡ true
      → due_leg r today l due ≡ (
          spec r l.instrument >>= λ s.
          ok (if comes_due today s then insert_due s.expiry due else due))
  unfolding due_leg
  due_leg-live l due e = rw e refl

  abbrev ListsLeg : Leg → List Date → List Date → Type 0
  ListsLeg l due due' = Grows due due' × Holds (Listed due') l

  visited-Listed :
      (l : Leg) (due : List Date) (x : Result InstrumentSpec)
      → spec r l.instrument ≡ x
      → Returns
          (x >>= λ s. ok (if comes_due today s then insert_due s.expiry due else due))
          (ListsLeg l due)
  unfolding Holds Grows Listed
  visited-Listed l due (err e) k = tt
  visited-Listed l due (ok s) k =
      elim (comes_due today s)
          as (λ b.
            comes_due today s ≡ b → ListsLeg l due (if b then insert_due s.expiry due else due)) [
              | true ↦ λ e. (
                λ x h. insert_due-keeps x s.expiry due h,
                λ _. (s, k, λ _. insert_due-In s.expiry due),
              )
              | false ↦ λ e. (λ x h. h, λ _. (s, k, λ c. cc))
            ]
        refl

  due_leg-Listed : (l : Leg) (due : List Date) → Returns (due_leg r today l due) (ListsLeg l due)
  unfolding Holds Grows
  due_leg-Listed l due = elim (Bool-cases (live l)) [
    | inl e ↦
        subst (λ x. Returns x (ListsLeg l due)) (sym (due_leg-live l due e))
          (visited-Listed l due (spec r l.instrument) refl)
    | inr e ↦
        subst (λ x. Returns x (ListsLeg l due)) (sym (due_leg-dead l due e)) (λ x h. h, λ alive. cc)
  ]

  Listed-Grows :
      (due due' : List Date)
      → Grows due due'
      → (l : Leg) → Holds (Listed due) l
      → Holds (Listed due') l
  unfolding Holds Listed Grows
  Listed-Grows due due' g l h =
      λ alive. let (s, known, listed) = h alive in (s, known, λ c. g s.expiry (listed c))

  due_legs-Listed :
      (ls : List Leg) (due : List Date) → Returns (due_legs r today ls due) (Lists ls due)
  unfolding due_legs Grows
  due_legs-Listed [] due = (λ x h. h, tt)
  due_legs-Listed (l ∷ ls) due =
      Returns-bind (λ due'. Grows due due' × Holds (Listed due') l) _ (due_leg r today l due) _
        (due_leg-Listed l due)
        λ due' (g, h).
          Returns-map (Lists ls due') _ (due_legs r today ls due')
            (λ e (g', hs). (λ x k. g' x (g x k), (Listed-Grows due' e g' l h, hs)))
            (due_legs-Listed ls due')

  pub due_from-Listed :
      (ps : List Position) (due : List Date)
      → Returns (due_from r today ps due) (λ due'. Grows due due' × Held (Listed due') ps)
  unfolding due_from Grows
  due_from-Listed [] due = (λ x h. h, tt)
  due_from-Listed (p ∷ ps) due =
      Returns-bind (Lists p.legs due) _ (due_legs r today p.legs due) _ (due_legs-Listed p.legs due)
        λ due' (g, h).
          Returns-map (λ e. Grows due' e × Held (Listed e) ps) _ (due_from r today ps due')
            (λ e (g', hs).
              (λ x k. g' x (g x k), (All-map _ _ (Listed-Grows due' e g') p.legs h, hs)))
            (due_from-Listed ps due')

  -- The instrument is known, and has not come to expire.
  unfoldable pub Early : InstrumentId → Type 0
  Early id = (s : InstrumentSpec) × (spec r id ≡ ok s) × (comes_due today s ≡ false)

module _ (r : InstrumentRegistry) where
  -- One settlement: what was held is, and expires on no day that has been settled.
  unfoldable pub Lasts : Date → InstrumentId → Type 0
  Lasts e id = (s : InstrumentSpec) × (spec r id ≡ ok s) × (expires s e ≡ false)

  module _ {F : Type 0} ⦃d : Double F⦄ (P : InstrumentId → Type 0)
      (known : (id : InstrumentId) → P id → (s : InstrumentSpec) × (spec r id ≡ ok s)) where
    settled_if-Holds :
        (e : Date) (level : F) (when : Timestamp) (l : Leg)
        → Holds P l
        → Holds (λ id. P id × Lasts e id) (settled_if r e level when l)
    unfolding Holds Lasts settled_if
    settled_if-Holds e level when l h = elim (Bool-cases (live l)) [
      | inl alive ↦
          let (s, k) = known l.instrument (h alive) in
          elim (Bool-cases (expires s e)) [
            | inl x ↦ rw (alive, k, x) (λ dead. cc)
            | inr x ↦ rw (alive, k, x) (λ _. (h alive, (s, k, x)))
          ]
      | inr dead ↦ rw dead (λ alive. cc)
    ]

    pub settled-Held :
        (e : Date) (level : F) (when : Timestamp) (ps : List Position)
        → Held P ps
        → Held (λ id. P id × Lasts e id) (map (settled_position r e level when) ps)
    settled-Held e level when [] a = tt
    settled-Held e level when (p ∷ ps) (a, as') = (legs p.legs a, settled-Held e level when ps as')
      where
        legs :
            (ls : List Leg)
            → HeldLegs P ls
            → HeldLegs (λ id. P id × Lasts e id) (map (settled_if r e level when) ls)
        legs [] a = tt
        legs (l ∷ ls) (a, as') = (settled_if-Holds e level when l a, legs ls as')
