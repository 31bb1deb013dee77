-- ===== src/Bars.antt =====
-- Resampled bars: cpp/core/include/volforge/bars.hpp and cpp/core/src/bars.cpp.
pub mod Grid
pub mod Causality
use volforge.Prelude.{
  ℕ, zero, suc, ◌+◌, ◌-◌, ◌*◌, ◌/◌, ◌%◌, ◌^◌, ◌≤◌, ◌<◌, ◌≡◌, refl, sym, ap, ◌∙◌, subst, ◌≢◌, ◌↔◌,
  ◌⊎◌, inl, inr, Bool, true, false, not, ◌&&◌, ◌||◌, Option, none, some, List, [], ◌∷◌, ◌++◌, map,
  arith, ltb, leb, ◌==◌, if◌then◌else◌, ltb→lt, leb→le, ==_iff, Bool-cases, Option-cases, length,
  get_elem?, set, take, filter_by, All, length-append, All-append, All-left, All-right, All-map,
  length-set, get_elem?-set_self, get_elem?-set_ne, get_elem?-All, ℤ, pos, negsuc, pos_part,
  neg_part, sub_ℕ, ◌+ℤ◌, ◌-ℤ◌, ◌*ℤ◌, neg, abs, ◌≤ℤ◌, ◌<ℤ◌, ltb_ℤ, leb_ℤ, eqb_ℤ, max_ℤ, min_ℤ, div_ℤ,
  +ℤ_parts, -ℤ_parts, neg_parts, eq_of_parts, eqb_ℤ_iff, eqb_ℤ_refl, int_laws, parts_of_eq, Error,
  Result, ok, err, ◌>>=◌, ◌>>◌, throw_if, or_throw, Result-cases, ok-injective, bind_ok, Safe,
  Safe-bind, Safe-map, Safe_of_ok, throw_if-Safe, is_fault, get_elem?-lt, get_elem?-append_left,
  get_elem?-snoc, get_elem?-snoc_cases, Returns, Returns-bind, Returns-then, Returns-map,
  Returns_of_ok, is_ok, returned, if_both,
}
use volforge.Types.{Timestamp, Price, Qty}
use volforge.Market.{Quote, QuoteColumns, two_sided, mid, index_at_or_before}

pub data BarPrice : Type 0 where
  last_price mid_price : BarPrice

pub record Bar : Type 0 where
  pub open_time : Timestamp
  pub close_time : Timestamp
  pub open_px : Price
  pub high : Price
  pub low : Price
  pub close : Price
  pub volume : Qty
  pub observations : ℕ

pub record BarSeries : Type 0 where
  pub bars : List Bar
  pub cols : QuoteColumns
  pub valid_until : Timestamp
  pub anchor : Timestamp
  pub source : BarPrice
  pub interval : ℤ

-- `price_of`.
unfoldable pub price_of : BarPrice → Quote → Price
price_of mid_price q = if two_sided q then mid q else q.last
price_of last_price q = q.last

-- `bucket_of`, for a positive interval: floor division.
unfoldable pub bucket_of : Timestamp → ℕ → Timestamp → ℤ
bucket_of anchor interval t =
    let delta = t -ℤ anchor in
    if leb_ℤ (pos 0) delta
    then pos (pos_part delta / interval)
    else neg (pos ((neg_part delta + (interval - 1)) / interval))

unfoldable pub opens_at : Timestamp → ℕ → ℤ → Timestamp
opens_at anchor interval b = anchor +ℤ b *ℤ pos interval

abbrev pub first_bar : Timestamp → ℕ → ℤ → Price → Qty → Bar
first_bar anchor interval b px volume = record {
  open_time = opens_at anchor interval b;
  close_time = opens_at anchor interval b +ℤ pos interval;
  open_px = px;
  high = px;
  low = px;
  close = px;
  volume = volume;
  observations = 1;
}

abbrev pub extend_bar : Bar → Price → Qty → Bar
extend_bar bar px volume = record bar {
  high = max_ℤ bar.high px;
  low = min_ℤ bar.low px;
  close = px;
  volume = bar.volume +ℤ volume;
  observations = bar.observations + 1;
}

-- The bar that is being filled, with its bucket: the last of `bars_`.
abbrev pub Filling : Type 0
Filling = Option (ℤ × Bar)

abbrev pub emit : Filling → List Bar
emit none = []
emit (some (b, bar)) = bar ∷ []

-- A usable print in bucket `b`: the bars that are full by then, and the one being filled. The flag
-- says whether the print goes into the bar that is there.
abbrev pub placed : Timestamp → ℕ → Bool → ℤ → Bar → ℤ → Price → Qty → List Bar × Filling
placed anchor interval true c bar b px volume = ([], some (c, extend_bar bar px volume))
placed anchor interval false c bar b px volume =
    (bar ∷ [], some (b, first_bar anchor interval b px volume))

abbrev pub print : Timestamp → ℕ → Filling → ℤ → Price → Qty → List Bar × Filling
print anchor interval none b px volume = ([], some (b, first_bar anchor interval b px volume))
print anchor interval (some (c, bar)) b px volume =
    placed anchor interval (eqb_ℤ b c) c bar b px volume

-- The loop of `build`.
unfoldable pub build_from : Timestamp → ℕ → BarPrice → Filling → QuoteColumns → List Bar
build_from anchor interval source filling [] = emit filling
build_from anchor interval source filling (q ∷ qs) =
    let px = price_of source q in
    let skipped = build_from anchor interval source filling qs in
    let (full, next) =
      print anchor interval filling (bucket_of anchor interval q.ts) px q.last_qty in
    let rest = build_from anchor interval source next qs in
    if leb_ℤ px (pos 0) then skipped else full ++ rest

-- `BarSeries::build`.
unfoldable pub build : QuoteColumns → ℤ → Timestamp → BarPrice → Timestamp → Result BarSeries
build cols interval anchor source valid_until = do
  throw_if (leb_ℤ interval (pos 0)) Error.invalid_argument
  ok (record {
    bars = build_from anchor (pos_part interval) source none cols;
    cols = cols;
    valid_until = valid_until;
    anchor = anchor;
    source = source;
    interval = interval;
  })

-- `std::upper_bound` by the time that the bars close at.
unfoldable pub closed_by : Timestamp → List Bar → ℕ
closed_by now [] = 0
closed_by now (b ∷ bs) = if ltb_ℤ now b.close_time then 0 else suc (closed_by now bs)

unfoldable pub known_count : BarSeries → Timestamp → Result ℕ
known_count s now = do
  throw_if (not (eqb_ℤ s.valid_until (pos 0)) && ltb_ℤ s.valid_until now) Error.logic_error
  ok (closed_by now s.bars)

-- `&bars_[k - 1 - steps]`, where there is one.
unfoldable pub stepped_back : List Bar → ℕ → ℕ → Option Bar
stepped_back bars k steps =
    if k == 0 then none else if leb k steps then none else get_elem? bars (k - 1 - steps)

unfoldable pub completed : BarSeries → Timestamp → ℤ → Result (Option Bar)
completed s now (negsuc _) = err Error.invalid_argument
completed s now (pos steps) = do k ← known_count s now; ok (stepped_back s.bars k steps)

-- The loop of `forming`: the rows at or before now, from the opening of the stored bar on.
unfoldable pub forming_from : BarPrice → Bar → Option Bar → QuoteColumns → Option Bar
forming_from source stored so_far [] = so_far
forming_from source stored so_far (q ∷ qs) =
    let px = price_of source q in
    let skipped = forming_from source stored so_far qs in
    let next : Bar = elim so_far [
      | none ↦ record stored {
        open_px = px;
        high = px;
        low = px;
        close = px;
        volume = q.last_qty;
        observations = 1;
      }
      | some bar ↦ extend_bar bar px q.last_qty
    ] in
    let rest = forming_from source stored (some next) qs in
    if ltb_ℤ q.ts stored.open_time then skipped else if leb_ℤ px (pos 0) then skipped else rest

-- The rest of `forming`, for the bar that is stored after the closed ones.
unfoldable pub forming_of : BarSeries → Timestamp → Option Bar → Option Bar
forming_of s now none = none
forming_of s now (some stored) =
    if ltb_ℤ now stored.open_time then none else elim (index_at_or_before s.cols now) [
      | none ↦ none
      | some upto ↦ forming_from s.source stored none (take (upto + 1) s.cols)
    ]

unfoldable pub forming : BarSeries → Timestamp → Result (Option Bar)
forming s now = do k ← known_count s now; ok (forming_of s now (get_elem? s.bars k))
