-- ===== src/Lib.antt =====
-- Volforge, an options back-tester, modelled from its C++: what its engine guarantees about time,
-- about money and about what a strategy can see.
--
-- A session is one day of quotes. The engine steps through the distinct times of its observations.
-- At each it fills the orders that have become eligible, lets the risk rules close positions, and
-- resumes the strategy while the condition that it awaits holds. The strategy reads the market
-- through a view that answers only what had been observed by the clock, and through bars that are
-- built from the whole session; it acts through a portfolio whose orders wait for the execution
-- delay. A detector replays truncated sessions to see whether a strategy's trades depend on the
-- future.
--
-- Files and the code that they model (paths under cpp/):
--   Types, Double         core/include/volforge/types.hpp. Integers of the source are unbounded
--                         here, but for the conversion of a double to a price, which wraps at 32
--                         bits. A double is a parameter with its operations: no theorem depends on
--                         rounding. Calendar is the arithmetic on dates.
--   Instrument            core/src/instrument.cpp: `InstrumentRegistry`. Laws and Expiries hold the
--                         proofs.
--   Market                core/src/quotes.cpp and core/src/data_source.cpp: `QuoteColumns`,
--                         `SessionData`, `ReplayClock` (`advance_to`), `MarketView` (`quote_at`,
--                         `printed_by`). Cursor is `EventCursor`, with the merge as a list of runs
--                         in place of a binary heap: the order of runs is total, so which run a heap
--                         pops is determined. Causality and Merge hold the proofs.
--   Costs                 core/src/costs.cpp.
--   Portfolio             core/src/portfolio.cpp: the types, with Positions (valuation), Submit
--                         (`submit_open`, `submit_close`, `submit_close_leg`,
--                         `cancel_working_orders`), Pending (`process_pending`), Marks, Expiry
--                         (`settle_expiry`) and Rules (`process_risk_rules`). Legs, Matching,
--                         Accounting, Closing, Opening, Operations, Settling and Settlement
--                         prove the ledger; Frame, RuleFrame and Fills what each operation may
--                         change.
--   Condition             core/src/condition.cpp: `Cond` as a function of what it may see, with
--                         `parse_time_of_day`. TimeOfDay holds its proofs.
--   Strategy              what strategy code can do between two suspensions, of
--                         core/src/strategy.cpp: a script of commands. The coroutine, bound to a
--                         session, is a parameter.
--                         Chain is `ChainView`, Forward is `Ctx::forward` and Context the
--                         conditions, schedules and bars of `Ctx`, without its caches. Selection,
--                         Pairs, Deltas, Search, Recovery and Schedule hold the proofs. The loops
--                         of the forward run on fuel: as many turns as strikes for the one that doubles, since the
--                         stride grows by one at least, and as many for the bisection, since each
--                         turn shortens the bracket. Out of turns they give `out_of_bounds`, so
--                         that `Safe` covers it.
--   Engine                core/src/event_loop.cpp: `run_session`. Causality, Soundness, Session and
--                         Ledger hold the proofs. `max_resumes_per_step` is the bound on the inner
--                         loop, as in the source, which throws where it is exceeded.
--   Lookahead             core/src/lookahead.cpp: `TruncatedSession`, with Detector for
--                         `check_lookahead`. Views, Runs, Timeline, Replay, Clean, Logs
--                         and Exact hold the proofs. The indices that the random generator draws are a
--                         parameter. A program is a function from sessions to strategies, since a
--                         coroutine may read series of the whole session, as `Ctx::bars` hands them
--                         out: that it does not look ahead is the hypothesis `IsCausal`.
--                         SessionBars is about reads of completed bars.
--   Backtest              core/src/backtest.cpp: `run_backtest`, over the interface `DataSource`. Ledger,
--                         Report, Held, Due and Clear hold the proofs. A coroutine reads the sessions
--                         of the source besides the view, each by its date, so that it is a family
--                         over dates.
--   Bars                  core/src/bars.cpp: `BarSeries`, its vector of bars as what the loop has filled
--                         followed by the bar that is being filled. Grid and Causality hold the
--                         proofs.
--   Indicators            core/src/indicators.cpp, with NaN and the square root as parameters. Warmup
--                         holds the proofs.
--   Codec                 store/src/codec.cpp: integers as 64-bit patterns, zigzag, varints and the
--                         shape of a read, with Encoder for `encode_column` and Decoder for
--                         `decode_column`. Varint, Scale, Packing, Unpacking, Raw, Width, Blocks,
--                         RoundTrip and Safety hold the proofs. Ten turns are enough for a varint
--                         and 64 for the width of a word; each block takes a value, so that the
--                         number of values is fuel enough for the loops over the blocks.
--   Memory                core/src/memory_source.cpp: `MemorySessionData`, with Source for
--                         `MemoryDataSource`. Order, Index, Series and Session hold the proofs;
--                         Backtest there is a backtest over such a source.
--   Examples              a small day with two runs' worth of data, and each theorem applied to it.
--
-- The merge of the cursor has as fuel the number of rows, of which each call takes one.
--
-- An exception is an error value. An access outside a vector that the source does not check is the
-- error `out_of_bounds`, and `Safe` says that a computation never runs into it.
--
-- Not modelled: the greeks and the margin model, which are numerics over doubles (the margin is a
-- parameter of the engine, which only samples it), the synthetic data generator, the file container
-- and its memory mapping, the Python bindings, and the examples.
pub mod Prelude
pub mod Types
pub mod Instrument
pub mod Market
pub mod Double
pub mod Costs
pub mod Portfolio
pub mod Condition
pub mod Strategy
pub mod Engine
pub mod Lookahead
pub mod Backtest
pub mod Bars
pub mod Indicators
pub mod Codec
pub mod Memory
pub mod Examples
