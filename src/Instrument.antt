-- ===== src/Instrument.antt =====
-- Instrument identity: cpp/core/include/volforge/instrument.hpp and cpp/core/src/instrument.cpp.
-- The two hash maps are association lists, newest entry first.
pub mod Keys
pub mod Laws
pub mod Expiries
use mathlib.Core.List.{foldr}
use Prim.Native.String.{String}
use text.Mathlib.Text.{◌==◌ as str_eq}
use volforge.Prelude.{
  ℕ, ◌≡◌, Bool, true, false, not, ◌&&◌, ◌||◌, Option, none, some, List, [], ◌∷◌, ◌++◌,
  if◌then◌else◌, length, get_elem?, ℤ, pos, negsuc, eqb_ℤ, ltb_ℤ, leb_ℤ, Result, Error, ok, err,
  or_throw,
}
use volforge.Types.{
  Date, Price, Qty, InstrumentId, UnderlyingId, Right, call, put, InstrumentKind, spot, future,
  option, date_valid,
}

pub record InstrumentSpec : Type 0 where
  pub id : InstrumentId
  pub underlying : UnderlyingId
  pub kind : InstrumentKind
  pub expiry : Date
  pub strike : Price
  pub right : Right
  pub lot_size : Qty
  pub tick_size : Price

abbrev pub is_option : InstrumentSpec → Bool
is_option s = elim s.kind [ option ↦ true | _ ↦ false ]

pub record Key : Type 0 where
  pub underlying : ℤ
  pub kind : ℤ
  pub expiry : ℤ
  pub strike : ℤ
  pub right : ℤ

abbrev pub key_eq : Key → Key → Bool
key_eq a b =
    eqb_ℤ a.underlying b.underlying
    && (eqb_ℤ a.kind b.kind
        && (eqb_ℤ a.expiry b.expiry && (eqb_ℤ a.strike b.strike && eqb_ℤ a.right b.right)))

abbrev pub kind_index : InstrumentKind → ℤ
kind_index spot = pos 0
kind_index future = pos 1
kind_index option = pos 2

abbrev pub right_index : Right → ℤ
right_index call = pos 0
right_index put = pos 1

-- `InstrumentRegistry::key_of`.
unfoldable pub key_of : InstrumentSpec → Key
key_of s = record {
  underlying = s.underlying;
  kind = kind_index s.kind;
  expiry = s.expiry;
  strike = s.strike;
  right = elim s.kind [ option ↦ right_index s.right | _ ↦ pos 0 ];
}

pub record InstrumentRegistry : Type 0 where
  pub specs : List InstrumentSpec
  pub by_key : List (Key × ℕ)
  pub underlyings : List String
  pub underlying_ids : List (String × ℕ)

unfoldable pub find_key : Key → List (Key × ℕ) → Option ℕ
find_key k [] = none
find_key k ((j, i) ∷ m) = if key_eq j k then some i else find_key k m

unfoldable pub find_name : String → List (String × ℕ) → Option ℕ
find_name k [] = none
find_name k ((j, i) ∷ m) = if str_eq j k then some i else find_name k m

-- `InstrumentRegistry::intern_underlying`.
unfoldable pub intern_underlying : InstrumentRegistry → String → InstrumentRegistry × UnderlyingId
intern_underlying r name = elim (find_name name r.underlying_ids) [
  | some i ↦ (r, pos i)
  | none ↦
      let i = length r.underlyings in
      (
        record r {
          underlyings = r.underlyings ++ (name ∷ []);
          underlying_ids = (name, i) ∷ r.underlying_ids;
        },
        pos i,
      )
]

unfoldable pub underlying_name : InstrumentRegistry → UnderlyingId → Result String
underlying_name r (negsuc _) = err Error.out_of_range
underlying_name r (pos i) = or_throw (get_elem? r.underlyings i) Error.out_of_range

-- `InstrumentRegistry::add`.
unfoldable pub add : InstrumentRegistry → InstrumentSpec → InstrumentRegistry × InstrumentId
add r s = elim (find_key (key_of s) r.by_key) [
  | some i ↦ (r, pos i)
  | none ↦
      let i = length r.specs in
      (
        record r {
          specs = r.specs ++ (record s { id = pos i } ∷ []);
          by_key = (key_of s, i) ∷ r.by_key;
        },
        pos i,
      )
]

-- `InstrumentRegistry::spec`.
unfoldable pub spec : InstrumentRegistry → InstrumentId → Result InstrumentSpec
spec r (negsuc _) = err Error.out_of_range
spec r (pos i) = or_throw (get_elem? r.specs i) Error.out_of_range

as_id : Option ℕ → Option InstrumentId
as_id none = none
as_id (some i) = some (pos i)

unfoldable pub find_option :
    InstrumentRegistry → UnderlyingId → Date → Price → Right → Option InstrumentId
unfolding as_id
find_option r u expiry strike right = as_id (
    find_key
      (record {
        underlying = u;
        kind = kind_index option;
        expiry = expiry;
        strike = strike;
        right = right_index right;
      })
      r.by_key)

unfoldable pub find_spot : InstrumentRegistry → UnderlyingId → Option InstrumentId
unfolding as_id
find_spot r u = as_id (
    find_key
      (record {
        underlying = u;
        kind = kind_index spot;
        expiry = pos 0;
        strike = pos 0;
        right = pos 0;
      })
      r.by_key)

-- `std::sort` on dates, then `std::unique`.
unfoldable pub insert_date : Date → List Date → List Date
insert_date d [] = d ∷ []
insert_date d (e ∷ es) = if leb_ℤ d e then d ∷ e ∷ es else e ∷ insert_date d es

unfoldable pub sort_dates : List Date → List Date
unfolding insert_date
sort_dates = foldr insert_date []

unfoldable pub unique_dates : List Date → List Date
unique_dates [] = []
unique_dates (d ∷ []) = d ∷ []
unique_dates (d ∷ e ∷ es) = let rest = unique_dates (e ∷ es) in if eqb_ℤ d e then rest else d ∷ rest

unfoldable pub is_spot : InstrumentKind → Bool
is_spot spot = true
is_spot future = false
is_spot option = false

-- The loop of `InstrumentRegistry::expiries`.
unfoldable pub listed_expiries : UnderlyingId → List InstrumentSpec → List Date
unfolding is_spot
listed_expiries u [] = []
listed_expiries u (s ∷ ss) =
    let rest = listed_expiries u ss in
    if not (eqb_ℤ s.underlying u) || is_spot s.kind || not (date_valid s.expiry)
    then rest
    else s.expiry ∷ rest

unfoldable pub expiries : InstrumentRegistry → UnderlyingId → List Date
unfolding sort_dates unique_dates listed_expiries
expiries r u = unique_dates (sort_dates (listed_expiries u r.specs))
