-- ===== src/Lookahead/Logs.antt =====
-- Logs of trades that the detector's comparison cannot tell apart.
use volforge.Prelude.{
  suc, ◌≡◌, refl, sym, ap, ◌∙◌, ◌↔◌, inl, inr, Bool, true, false, not, ◌&&◌, none, some, List, [],
  ◌∷◌, arith, ◌==◌, if◌then◌else◌, ==_iff, Bool-cases, length, eqb_ℤ, eqb_ℤ_iff,
}
use volforge.Costs.{Side, buy, sell}
use volforge.Portfolio.{TradeRecord}
use volforge.Lookahead.Detector.{
  count, differs, same_side, same_trade, first_difference, compare_logs,
}

-- Two trades that a log cannot tell apart.
pub record SameTrade (a b : TradeRecord) : Type 0 where
  pub signalled : a.signal_ts ≡ b.signal_ts
  pub filled : a.fill_ts ≡ b.fill_ts
  pub contract : a.instrument ≡ b.instrument
  pub side : a.side ≡ b.side
  pub qty : a.qty ≡ b.qty
  pub price : a.price ≡ b.price

-- Logs of the same length, trade for trade.
abbrev pub Alike : List TradeRecord → List TradeRecord → Type 0
Alike [] [] = Unit {0}
Alike [] (u ∷ us) = ⊥
Alike (t ∷ ts) [] = ⊥
Alike (t ∷ ts) (u ∷ us) = SameTrade t u × Alike ts us

and_true : (a b : Bool) → (a && b) ≡ true → (a ≡ true) × (b ≡ true)
and_true true b h = (refl, h)
and_true false b h = cc

same_side_iff : (a b : Side) → (same_side a b ≡ true) ↔ (a ≡ b)
same_side_iff buy buy = (λ h. refl, λ h. refl)
same_side_iff buy sell = (λ h. cc, λ h. cc)
same_side_iff sell buy = (λ h. cc, λ h. cc)
same_side_iff sell sell = (λ h. refl, λ h. refl)

same_trade-SameTrade : (a b : TradeRecord) → same_trade a b ≡ true → SameTrade a b
unfolding same_trade
same_trade-SameTrade a b h =
    let (k5, h6) =
      and_true
        (eqb_ℤ a.signal_ts b.signal_ts
          && eqb_ℤ a.fill_ts b.fill_ts
          && eqb_ℤ a.instrument b.instrument
          && same_side a.side b.side
          && eqb_ℤ a.qty b.qty)
        (eqb_ℤ a.price b.price) h in
    let (k4, h5) =
      and_true
        (eqb_ℤ a.signal_ts b.signal_ts
          && eqb_ℤ a.fill_ts b.fill_ts
          && eqb_ℤ a.instrument b.instrument
          && same_side a.side b.side)
        (eqb_ℤ a.qty b.qty) k5 in
    let (k3, h4) =
      and_true
        (eqb_ℤ a.signal_ts b.signal_ts
          && eqb_ℤ a.fill_ts b.fill_ts
          && eqb_ℤ a.instrument b.instrument)
        (same_side a.side b.side) k4 in
    let (k2, h3) =
      and_true (eqb_ℤ a.signal_ts b.signal_ts && eqb_ℤ a.fill_ts b.fill_ts)
        (eqb_ℤ a.instrument b.instrument) k3 in
    let (h1, h2) = and_true (eqb_ℤ a.signal_ts b.signal_ts) (eqb_ℤ a.fill_ts b.fill_ts) k2 in
    record {
      signalled = (eqb_ℤ_iff a.signal_ts b.signal_ts).0 h1;
      filled = (eqb_ℤ_iff a.fill_ts b.fill_ts).0 h2;
      contract = (eqb_ℤ_iff a.instrument b.instrument).0 h3;
      side = (same_side_iff a.side b.side).0 h4;
      qty = (eqb_ℤ_iff a.qty b.qty).0 h5;
      price = (eqb_ℤ_iff a.price b.price).0 h6;
    }

SameTrade-same_trade : (a b : TradeRecord) → SameTrade a b → same_trade a b ≡ true
unfolding same_trade
SameTrade-same_trade a b h =
    rw
      (
        (eqb_ℤ_iff a.signal_ts b.signal_ts).1 h.signalled,
        (eqb_ℤ_iff a.fill_ts b.fill_ts).1 h.filled,
        (eqb_ℤ_iff a.instrument b.instrument).1 h.contract,
        (same_side_iff a.side b.side).1 h.side,
        (eqb_ℤ_iff a.qty b.qty).1 h.qty,
        (eqb_ℤ_iff a.price b.price).1 h.price,
      )
      refl

first_difference-Alike :
    (ts us : List TradeRecord) → length ts ≡ length us → first_difference ts us ≡ none → Alike ts us
unfolding first_difference
first_difference-Alike [] [] e h = tt
first_difference-Alike [] (u ∷ us) e h = absurd (omega (arith, e))
first_difference-Alike (t ∷ ts) [] e h = absurd (omega (arith, e))
first_difference-Alike (t ∷ ts) (u ∷ us) e h = elim (Bool-cases (same_trade t u)) [
  | inl same ↦ (
    same_trade-SameTrade t u same,
    first_difference-Alike ts us (omega (arith, e)) (sym (rw same refl) ∙ h),
  )
  | inr other ↦ let found : some (differs t u) ≡ none = sym (rw other refl) ∙ h in cc
]

Alike-length : (ts us : List TradeRecord) → Alike ts us → length ts ≡ length us
Alike-length [] [] h = refl
Alike-length [] (u ∷ us) h = absurd h
Alike-length (t ∷ ts) [] h = absurd h
Alike-length (t ∷ ts) (u ∷ us) (h, hs) = ap suc (Alike-length ts us hs)

Alike-first_difference : (ts us : List TradeRecord) → Alike ts us → first_difference ts us ≡ none
unfolding first_difference
Alike-first_difference [] us h = refl
Alike-first_difference (t ∷ ts) [] h = absurd h
Alike-first_difference (t ∷ ts) (u ∷ us) (h, hs) =
    rw (SameTrade-same_trade t u h) (Alike-first_difference ts us hs)

pub compare_logs_iff : (ts us : List TradeRecord) → (compare_logs ts us ≡ none) ↔ Alike ts us
unfolding compare_logs
compare_logs_iff ts us =
    elim (length us == length ts)
        as (λ b.
          length us == length ts ≡ b
          → ((if not b then some (count (length us) (length ts)) else first_difference ts us)
              ≡ none)
            ↔ Alike ts us) [
              | true ↦ λ e. (
                first_difference-Alike ts us (sym ((==_iff (length us) (length ts)).0 e)),
                Alike-first_difference ts us,
              )
              | false ↦ λ e. (
                λ h. cc,
                λ h.
                    let same = (==_iff (length us) (length ts)).1 (sym (Alike-length ts us h)) in
                    cc,
              )
            ]
      refl
