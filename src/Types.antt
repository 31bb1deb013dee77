-- ===== src/Types.antt =====
-- Core value types: cpp/core/include/volforge/types.hpp. A `Timestamp`, `Date`, `Price`, `Money` or
-- `Qty` is a struct of one signed integer there, and is that integer here.
pub mod Calendar
use volforge.Prelude.{Bool, ℤ, pos, negsuc, ◌*ℤ◌, ltb_ℤ}

-- Nanoseconds since the Unix epoch.
abbrev pub Timestamp : Type 0
Timestamp = ℤ

-- yyyymmdd.
abbrev pub Date : Type 0
Date = ℤ

-- Minor currency units.
abbrev pub Price : Type 0
Price = ℤ

abbrev pub Money : Type 0
Money = ℤ

abbrev pub Qty : Type 0
Qty = ℤ

abbrev pub InstrumentId : Type 0
InstrumentId = ℤ

abbrev pub UnderlyingId : Type 0
UnderlyingId = ℤ

-- `InstrumentId::Invalid` and `UnderlyingId::Invalid`.
abbrev pub invalid_id : ℤ
invalid_id = negsuc 0

pub data Right : Type 0 where
  call put : Right

pub data InstrumentKind : Type 0 where
  spot future option : InstrumentKind

-- `Date::valid`.
abbrev pub date_valid : Date → Bool
date_valid d = ltb_ℤ (pos 0) d

unfoldable pub notional : Price → Qty → Money
notional p q = p *ℤ q

abbrev pub seconds_nanos : ℤ
seconds_nanos = pos 1_000_000_000

-- `Timestamp::from_seconds`.
unfoldable pub from_seconds : ℤ → Timestamp
from_seconds s = s *ℤ seconds_nanos
