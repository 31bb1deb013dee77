-- ===== src/Backtest/Clear.antt =====
-- After the end of a session no position holds a contract whose expiry has come.
use volforge.Backtest.{live}
use volforge.Backtest.{Leg}
use volforge.Backtest.{date_valid}
use volforge.Prelude.{
  ◌≡◌, refl, sym, ◌∙◌, subst, ◌⊎◌, inl, inr, true, false, List, [], ◌∷◌, map, arith, Bool-cases,
  All, All-map, ℤ, ◌<ℤ◌, leb_ℤ, max_ℤ, eqb_ℤ_refl, Error, ok, throw_if, or_throw, ok-injective,
  Returns, Returns-bind, Returns-then, Returns-map,
}
use volforge.Types.{Date, Timestamp, InstrumentId}
use volforge.Instrument.{InstrumentRegistry, InstrumentSpec, spec, is_option}
use volforge.Market.{MarketView, SessionData, view_of}
use volforge.Market.Cursor.{steps_of}
use volforge.Double.{Double}
use volforge.Portfolio.{Portfolio, Position}
use volforge.Portfolio.Submit.{cancel_working_orders}
use volforge.Portfolio.Expiry.{expires, drop_settled, settle_positions, settle_expiry}
use volforge.Portfolio.Settled.{settled_position, settle_positions-all}
use volforge.Strategy.{Strategy}
use volforge.Backtest.{
  BacktestConfig, Carried, comes_due, due_from, due_expiries, forbids, settlement_level, settle_due,
  settle_at, close_session, day_steps, new_day, trade_session,
}
use volforge.Backtest.Held.{Holds, Held, drop_settled-Held, cancel_working_orders-Held}
use volforge.Backtest.Due.{In, Listed, Early, Lasts, due_from-Listed, settled-Held}

Held-map :
    (P Q : InstrumentId → Type 0)
    → ((id : InstrumentId) → P id → Q id)
    → (ps : List Position) → Held P ps
    → Held Q ps
unfolding Holds
Held-map P Q f ps = All-map _ _ (λ q. All-map _ _ (λ l h alive. f l.instrument (h alive)) q.legs) ps

AllLast : InstrumentRegistry → List Date → InstrumentId → Type 0
AllLast r [] id = Unit {0}
AllLast r (e ∷ es) id = Lasts r e id × AllLast r es id

AllLast-In :
    (r : InstrumentRegistry) (es : List Date) (id : InstrumentId) (e : Date)
    → AllLast r es id
    → In e es
    → Lasts r e id
unfolding AllLast
AllLast-In r [] id e a h = absurd h
AllLast-In r (x ∷ es) id e (a, as') h = elim h [
  | inl same ↦ subst (λ y. Lasts r y id) (sym same) a
  | inr later ↦ AllLast-In r es id e as' later
]

comes_due-expires :
    (today : Date) (s : InstrumentSpec) → comes_due today s ≡ true → expires s s.expiry ≡ true
comes_due-expires today s h = rw (option_due, eqb_ℤ_refl s.expiry) refl
  where
    option_due : is_option s ≡ true
    option_due = ground arith

-- No expiry of a contract that could be due: no option, no date, or a date to come.
abbrev pub IsLater : Date → InstrumentSpec → Type 0
IsLater date s = (is_option s ≡ false) ⊎ ((date_valid s.expiry ≡ false) ⊎ (date <ℤ s.expiry))

-- A leg that is not live, or whose instrument is known and expires later, if at all.
abbrev pub IsPast : InstrumentRegistry → Date → Leg → Type 0
IsPast r date l =
    (live l ≡ false) ⊎ ((s : InstrumentSpec) × (spec r l.instrument ≡ ok s) × IsLater date s)

-- What the end of a session leaves: nothing whose expiry has come, and no order.
abbrev pub IsClear : {F : Type 0} → InstrumentRegistry → Date → Portfolio F → Type 0
IsClear r date p = All (λ q. All (IsPast r date) q.legs) p.positions × (p.pending ≡ [])

later : (a b : ℤ) → leb_ℤ b a ≡ false → a <ℤ b
later a b h = ground arith

due_date :
    (date : Date) (s : InstrumentSpec)
    → is_option s ≡ true
    → date_valid s.expiry ≡ true
    → comes_due date s ≡ false
    → leb_ℤ s.expiry date ≡ false
due_date date s o v h = sym (rw (o, v) refl) ∙ h

not_due-IsLater : (date : Date) (s : InstrumentSpec) → comes_due date s ≡ false → IsLater date s
not_due-IsLater date s h = elim (Bool-cases (is_option s)) [
  | inl o ↦ elim (Bool-cases (date_valid s.expiry)) [
    | inl v ↦ inr (inr (later date s.expiry (due_date date s o v h)))
    | inr v ↦ inr (inl v)
  ]
  | inr o ↦ inl o
]

Early-IsPast :
    (r : InstrumentRegistry) (date : Date) (l : Leg) → Holds (Early r date) l → IsPast r date l
unfolding Holds Early
Early-IsPast r date l h = elim (Bool-cases (live l)) [
  | inl alive ↦ let (s, known, early) = h alive in inr (s, known, not_due-IsLater date s early)
  | inr dead ↦ inl dead
]

module _ {F : Type 0} ⦃d : Double F⦄ (config : BacktestConfig F) where
  settle_expiry-Held :
      (P : InstrumentId → Type 0) (m : MarketView)
      → ((id : InstrumentId) → P id → (s : InstrumentSpec) × (spec m.registry id ≡ ok s))
      → (p : Portfolio F) (e : Date) (level : F) (when : Timestamp) → Held P p.positions
      → Returns
          (settle_expiry m p e level when)
          (λ s. Held (λ id. P id × Lasts m.registry e id) (s.0).positions)
  unfolding settle_expiry
  settle_expiry-Held P m known p e level when a =
      let Q = λ (id : InstrumentId). P id × Lasts m.registry e id in
      Returns-bind
        (λ s. (s.0).positions ≡ map (settled_position m.registry e level when) p.positions) _
        (settle_positions m.registry e level when p 0 p.positions) _
        (settle_positions-all m.registry e level when p)
        λ s k.
          Returns-bind (λ t. Held Q t.0) _ (drop_settled m.registry e (s.0).positions (s.0).pending)
            _
            (drop_settled-Held Q m.registry e (s.0).pending (s.0).positions
              (subst (Held Q) (sym k) (settled-Held m.registry P known e level when p.positions a)))
            λ t h. h

  settle_due-Held :
      (es : List Date) (P : InstrumentId → Type 0) (m : MarketView)
      → ((id : InstrumentId) → P id → (s : InstrumentSpec) × (spec m.registry id ≡ ok s))
      → (now : Timestamp) (p : Portfolio F) → Held P p.positions
      → Returns
          (settle_due config m now es p)
          (λ s. Held (λ id. P id × AllLast m.registry es id) (s.0).positions)
  unfolding settle_due AllLast
  settle_due-Held [] P m known now p a = Held-map _ _ (λ id h. (h, tt)) p.positions a
  settle_due-Held (e ∷ es) P m known now p a =
      let Q = λ (id : InstrumentId). P id × Lasts m.registry e id in
      Returns-then _ (throw_if (forbids config.expiry) Error.runtime_error) _ λ _.
        Returns-then _ (or_throw (settlement_level config m e) Error.runtime_error) _ λ level.
          Returns-bind (λ s. Held Q (s.0).positions) _ (settle_expiry m p e level now) _
            (settle_expiry-Held P m known p e level now a)
            λ s h.
              Returns-bind (λ t. Held (λ id. Q id × AllLast m.registry es id) (t.0).positions) _
                (settle_due config m now es s.0) _
                (settle_due-Held es Q m (λ id k. known id k.0) now s.0 h)
                λ t k. Held-map _ _ (λ id ((x, y), z). (x, (y, z))) (t.0).positions k

  all-Early :
      (r : InstrumentRegistry) (today : Date) (due : List Date) (id : InstrumentId)
      → Listed r today due id × AllLast r due id
      → Early r today id
  unfolding Listed Early Lasts
  all-Early r today due id ((s, known, listed), lasts) = (
    s,
    known,
    elim (Bool-cases (comes_due today s)) [
      | inl c ↦
          let (t, same, early) = AllLast-In r due id s.expiry lasts (listed c) in
          let one : t ≡ s = ok-injective t s (sym same ∙ known) in
          let late : expires t s.expiry ≡ true =
            subst (λ y. expires y s.expiry ≡ true) (sym one) (comes_due-expires today s c) in
          cc
      | inr c ↦ c
    ],
  )

  Listed-known :
      (r : InstrumentRegistry) (today : Date) (due : List Date) (id : InstrumentId)
      → Listed r today due id
      → (s : InstrumentSpec) × (spec r id ≡ ok s)
  unfolding Listed
  Listed-known r today due id (s, known, _) = (s, known)

  close_session-IsClear :
      (m : MarketView) (date : Date) (p : Portfolio F)
      → Returns (close_session config m date p) (λ s. IsClear m.registry date s.0)
  unfolding close_session due_expiries
  close_session-IsClear m date p =
      let r = m.registry in
      Returns-bind (λ due. Held (Listed r date due) p.positions) _ (due_expiries r date p.positions)
        _
        (Returns-map _ _ (due_from r date p.positions []) (λ due h. h.1)
          (due_from-Listed r date p.positions []))
        λ due a.
          Returns-bind (λ s. Held (Early r date) (s.0).positions) _
            (settle_due config m m.now due p) _
            (Returns-map _ _ (settle_due config m m.now due p)
              (λ s h. Held-map _ _ (all-Early r date due) (s.0).positions h)
              (settle_due-Held due (Listed r date due) m (λ id h. Listed-known r date due id h)
                m.now p a))
            λ s h.
              Returns-bind (λ t. Held (Early r date) (t.0).positions × ((t.0).pending ≡ [])) _
                (cancel_working_orders s.0) _ (cancel_working_orders-Held (Early r date) s.0 h)
                λ t (k, none_left). (
                  All-map _ _ (λ q. All-map _ _ (Early-IsPast r date) q.legs) (t.0).positions k,
                  none_left,
                )

  module _ {S : Type 0} (strategy : Date → Strategy F S) where
    -- If a session of a backtest is traded to its end, whatever the strategy did, no live leg is of
    -- an option whose expiry has come, be it of that day or of an earlier one, and no order is left.
    pub trade_session-IsClear :
        (date : Date) (s : SessionData) (c : Carried F S)
        → Returns
            (trade_session config strategy date s c)
            (λ c'. IsClear s.registry date c'.running.portfolio)
    unfolding trade_session view_of
    trade_session-IsClear date s c =
        Returns-then _
          (day_steps config strategy date s (new_day config strategy c.running) (steps_of s)) _
          λ r.
            let m = view_of s (max_ℤ r.clock (settle_at config date)) in
            Returns-bind (λ t. IsClear s.registry date t.0) _
              (close_session config m date r.portfolio) _ (close_session-IsClear m date r.portfolio)
              λ t h. h
