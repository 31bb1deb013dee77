-- ===== src/Bars/Causality.antt =====
-- No bar is seen before it has closed.
use volforge.Prelude.{
  ℕ, zero, suc, ◌-◌, ◌<◌, ◌≡◌, refl, sym, ap, ◌∙◌, subst, inl, inr, Bool, true, false, not, ◌&&◌,
  Option, none, some, List, [], ◌∷◌, ◌++◌, arith, if◌then◌else◌, Bool-cases, length, get_elem?, All,
  ℤ, pos, negsuc, pos_part, ◌+ℤ◌, ◌≤ℤ◌, ◌<ℤ◌, ltb_ℤ, leb_ℤ, eqb_ℤ, eqb_ℤ_iff, Error, ok, ◌>>=◌,
  ◌>>◌, throw_if,
}
use volforge.Types.{Timestamp, Price, Qty}
use volforge.Market.{Quote, QuoteColumns}
use volforge.Market.Causality.{IsSorted, until, until_late}
use volforge.Lookahead.Runs.{le_or_lt}
use volforge.Bars.{
  Bar, BarPrice, BarSeries, Filling, price_of, bucket_of, opens_at, first_bar, extend_bar, placed,
  emit, print, build_from, build, closed_by, known_count, stepped_back, completed,
}
use volforge.Bars.Grid.{bucket_of-lem}

-- The bars that have closed by `now`, up to the first that has not.
unfoldable pub closed_bars : Timestamp → List Bar → List Bar
closed_bars now [] = []
closed_bars now (b ∷ bs) =
    let rest = closed_bars now bs in if ltb_ℤ now b.close_time then [] else b ∷ rest

module _ (now : Timestamp) where
  closed_bars_cons :
      (b : Bar) (xs ys : List Bar)
      → closed_bars now xs ≡ closed_bars now ys
      → closed_bars now (b ∷ xs) ≡ closed_bars now (b ∷ ys)
  unfolding closed_bars
  closed_bars_cons b xs ys h = ap (λ (r : List Bar). if ltb_ℤ now b.close_time then [] else b ∷ r) h

  closed_bars_late : (b : Bar) (bs : List Bar) → now <ℤ b.close_time → closed_bars now (b ∷ bs) ≡ []
  unfolding closed_bars
  closed_bars_late b bs h = ground arith

  closed_bars_append :
      (full xs ys : List Bar)
      → closed_bars now xs ≡ closed_bars now ys
      → closed_bars now (full ++ xs) ≡ closed_bars now (full ++ ys)
  closed_bars_append [] xs ys h = h
  closed_bars_append (b ∷ full) xs ys h =
      closed_bars_cons b (full ++ xs) (full ++ ys) (closed_bars_append full xs ys h)

  module _ (anchor : Timestamp) (interval : ℕ) (source : BarPrice) (positive : 0 < interval) where
    abbrev closes : ℤ → Timestamp
    closes b = opens_at anchor interval b +ℤ pos interval

    -- The bar that is being filled closes at the end of its bucket.
    abbrev IsFilling : Filling → Type 0
    IsFilling none = Unit {0}
    IsFilling (some (c, bar)) = bar.close_time ≡ opens_at anchor interval c +ℤ pos interval

    build_from-skip :
        (f : Filling) (q : Quote) (qs : QuoteColumns)
        → leb_ℤ (price_of source q) (pos 0) ≡ true
        → build_from anchor interval source f (q ∷ qs) ≡ build_from anchor interval source f qs
    unfolding build_from
    build_from-skip f q qs e = rw e refl

    build_from-print :
        (f : Filling) (q : Quote) (qs : QuoteColumns)
        → leb_ℤ (price_of source q) (pos 0) ≡ false
        → build_from anchor interval source f (q ∷ qs) ≡ (
            let s =
              print anchor interval f
                (bucket_of anchor interval q.ts)
                (price_of source q)
                q.last_qty in
            s.0 ++ build_from anchor interval source s.1 qs)
    unfolding build_from
    build_from-print f q qs e = rw e refl

    print-IsFilling :
        (f : Filling) (b : ℤ) (px : Price) (volume : Qty)
        → IsFilling f
        → IsFilling (print anchor interval f b px volume).1
    print-IsFilling none b px volume h = refl
    print-IsFilling (some (c, bar)) b px volume h =
        elim (eqb_ℤ b c) as (λ x. IsFilling (placed anchor interval x c bar b px volume).1) [
          | true ↦ h
          | false ↦ refl
        ]

    -- A print after now leaves no bar closed that was not, and starts none that is.
    placed-late :
        (qs : QuoteColumns) (same : Bool) (c : ℤ) (bar : Bar) (b : ℤ) (px : Price) (volume : Qty)
        → (same ≡ true → b ≡ c)
        → IsFilling (some (c, bar))
        → now <ℤ closes b
        → ((f : Filling)
            → IsFilling f
            → closed_bars now (build_from anchor interval source f qs) ≡ closed_bars now (emit f))
        → closed_bars now (
            let s = placed anchor interval same c bar b px volume in
            s.0 ++ build_from anchor interval source s.1 qs)
          ≡ closed_bars now (bar ∷ [])
    unfolding closed_bars
    placed-late qs true c bar b px volume in_bar h late ih =
        let here : now <ℤ bar.close_time =
          subst (λ x. now <ℤ x) (ap closes (in_bar refl) ∙ sym h) late in
        ih (some (c, extend_bar bar px volume)) h
        ∙ (closed_bars_late (extend_bar bar px volume) [] here ∙ sym (closed_bars_late bar [] here))
    placed-late qs false c bar b px volume in_bar h late ih =
        let new = first_bar anchor interval b px volume in
        closed_bars_cons bar (build_from anchor interval source (some (b, new)) qs) []
          (ih (some (b, new)) refl ∙ closed_bars_late new [] late)

    print-late :
        (qs : QuoteColumns) (f : Filling) (b : ℤ) (px : Price) (volume : Qty)
        → IsFilling f
        → now <ℤ closes b
        → ((f : Filling)
            → IsFilling f
            → closed_bars now (build_from anchor interval source f qs) ≡ closed_bars now (emit f))
        → closed_bars now (
            let s = print anchor interval f b px volume in
            s.0 ++ build_from anchor interval source s.1 qs)
          ≡ closed_bars now (emit f)
    unfolding closed_bars
    print-late qs none b px volume h late ih =
        let new = first_bar anchor interval b px volume in
        ih (some (b, new)) refl ∙ closed_bars_late new [] late
    print-late qs (some (c, bar)) b px volume h late ih =
        placed-late qs (eqb_ℤ b c) c bar b px volume (eqb_ℤ_iff b c).0 h late ih

    build_from-late :
        (qs : QuoteColumns) (f : Filling)
        → IsFilling f
        → All (λ q. now <ℤ q.ts) qs
        → closed_bars now (build_from anchor interval source f qs) ≡ closed_bars now (emit f)
    unfolding build_from
    build_from-late [] f h k = refl
    build_from-late (q ∷ qs) f h (k, ks) = elim (Bool-cases (leb_ℤ (price_of source q) (pos 0))) [
      | inl e ↦ ap (closed_bars now) (build_from-skip f q qs e) ∙ build_from-late qs f h ks
      | inr e ↦
          let (_, ends) = bucket_of-lem anchor interval q.ts positive in
          ap (closed_bars now) (build_from-print f q qs e)
          ∙ print-late qs f (bucket_of anchor interval q.ts) (price_of source q) q.last_qty h
              (omega arith) λ g k'. build_from-late qs g k' ks
    ]

    build_from-until :
        (qs : QuoteColumns) (low : Timestamp) (f : Filling)
        → IsFilling f
        → IsSorted low qs
        → closed_bars now (build_from anchor interval source f qs)
          ≡ closed_bars now (build_from anchor interval source f (until now qs))
    unfolding build_from
    build_from-until [] low f h s = refl
    build_from-until (q ∷ qs) low f h (k, ks) = elim (le_or_lt q.ts now) [
      | inl kept ↦
          let e : until now (q ∷ qs) ≡ q ∷ until now qs = ground arith in
          rw e (elim (Bool-cases (leb_ℤ (price_of source q) (pos 0))) [
            | inl skip ↦
                rw (build_from-skip f q qs skip, build_from-skip f q (until now qs) skip)
                  (build_from-until qs q.ts f h ks)
            | inr usable ↦
                let s =
                  print anchor interval f (bucket_of anchor interval q.ts) (price_of source q)
                    q.last_qty in
                rw (build_from-print f q qs usable, build_from-print f q (until now qs) usable)
                  (closed_bars_append s.0 _ _ (
                    build_from-until qs q.ts s.1
                      (print-IsFilling f (bucket_of anchor interval q.ts) (price_of source q)
                        q.last_qty h)
                      ks))
          ])
      | inr late ↦
          rw (until_late now q.ts (q ∷ qs) (omega arith, ks) late)
            (build_from-late (q ∷ qs) f h (late, later q.ts qs ks late))
    ]
      where
        later :
            (low : Timestamp) (xs : QuoteColumns)
            → IsSorted low xs
            → now <ℤ low
            → All (λ x. now <ℤ x.ts) xs
        later low [] h k = tt
        later low (x ∷ xs) (h, hs) k = (omega arith, later x.ts xs hs (omega arith))

closed_by-length :
    (now : Timestamp) (bs : List Bar) → closed_by now bs ≡ length (closed_bars now bs)
unfolding closed_by closed_bars
closed_by-length now [] = refl
closed_by-length now (b ∷ bs) = ground (arith, closed_by-length now bs)

closed_bars_keep :
    (now : Timestamp) (b : Bar) (bs : List Bar)
    → b.close_time ≤ℤ now
    → closed_bars now (b ∷ bs) ≡ b ∷ closed_bars now bs
unfolding closed_bars
closed_bars_keep now b bs h = ground arith

get_elem?_cons :
    (b : Bar) (xs ys : List Bar) (i : ℕ)
    → ((j : ℕ) → j < length ys → get_elem? xs j ≡ get_elem? ys j)
    → i < suc (length ys)
    → get_elem? (b ∷ xs) i ≡ get_elem? (b ∷ ys) i
get_elem?_cons b xs ys zero same h = refl
get_elem?_cons b xs ys (suc i) same h = same i (omega arith)

get_elem?-closed_bars :
    (now : Timestamp) (bs : List Bar) (i : ℕ)
    → i < length (closed_bars now bs)
    → get_elem? bs i ≡ get_elem? (closed_bars now bs) i
unfolding closed_bars
get_elem?-closed_bars now [] i h = refl
get_elem?-closed_bars now (b ∷ bs) i h = elim (le_or_lt b.close_time now) [
  | inl kept ↦
      let e = closed_bars_keep now b bs kept in
      get_elem?_cons b bs (closed_bars now bs) i (get_elem?-closed_bars now bs) (rw e at h)
      ∙ ap (λ (x : List Bar). get_elem? x i) (sym e)
  | inr late ↦
      let none_left : i < 0 = rw (closed_bars_late now b bs late) at h in absurd (omega arith)
]

stepped_back-closed_bars :
    (now : Timestamp) (bs : List Bar) (steps : ℕ)
    → stepped_back bs (closed_by now bs) steps
      ≡ stepped_back (closed_bars now bs) (length (closed_bars now bs)) steps
unfolding stepped_back
stepped_back-closed_bars now bs steps =
    let n = length (closed_bars now bs) in
    rw (closed_by-length now bs) (ground (arith, get_elem?-closed_bars now bs (n - 1 - steps)))

-- Which bar has completed at a time, at any offset into the past, depends on no later observation:
-- it is what the bars of the observations up to that time give, errors included. The series is
-- sorted.
pub completed-until :
    (cols : QuoteColumns) (interval : ℤ) (anchor : Timestamp) (source : BarPrice)
    → (valid_until now : Timestamp) (back : ℤ) (low : Timestamp) → IsSorted low cols
    → (build cols interval anchor source valid_until >>= λ s. completed s now back)
      ≡ (build (until now cols) interval anchor source valid_until >>= λ s. completed s now back)
unfolding build completed known_count
completed-until cols interval anchor source valid_until now (negsuc n) low sorted =
    elim (leb_ℤ interval (pos 0))
      as (λ b.
        ((throw_if b Error.invalid_argument >> ok (series cols)) >>= λ s.
        completed s now (negsuc n))
        ≡ ((throw_if b Error.invalid_argument >> ok (series (until now cols))) >>= λ s.
            completed s now (negsuc n))) [ true ↦ refl | false ↦ refl ]
  where
    series : QuoteColumns → BarSeries
    series xs = record {
      bars = build_from anchor (pos_part interval) source none xs;
      cols = xs;
      valid_until = valid_until;
      anchor = anchor;
      source = source;
      interval = interval;
    }
completed-until cols interval anchor source valid_until now (pos n) low sorted =
    elim (Bool-cases (leb_ℤ interval (pos 0))) [
      | inl e ↦ rw e refl
      | inr e ↦
          let whole = build_from anchor (pos_part interval) source none cols in
          let seen = build_from anchor (pos_part interval) source none (until now cols) in
          let same : stepped_back whole (closed_by now whole) n
              ≡ stepped_back seen (closed_by now seen) n =
            stepped_back-closed_bars now whole n
            ∙ (ap (λ (x : List Bar). stepped_back x (length x) n)
                  (build_from-until now anchor (pos_part interval) source (ground arith) cols low
                    none tt sorted)
                ∙ sym (stepped_back-closed_bars now seen n)) in
          rw e
            (elim (not (eqb_ℤ valid_until (pos 0)) && ltb_ℤ valid_until now)
              as (λ b.
                ((throw_if b Error.logic_error >> ok (closed_by now whole)) >>= λ k.
                ok (stepped_back whole k n))
                ≡ ((throw_if b Error.logic_error >> ok (closed_by now seen)) >>= λ k.
                    ok (stepped_back seen k n))) [
                      | true ↦ refl
                      | false ↦ ap (λ (x : Option Bar). ok x) same
                    ])
    ]
