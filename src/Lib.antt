-- ===== src/Lib.antt =====
-- The floor, the cashier and the tournaments of the poker club back end: src/clubs, a NestJS service over PostgreSQL.
-- The floor keeps a waitlist and tables, and seats players; the cashier decides buy-in, buy-out and
-- credit requests; staff enter, edit and cancel ledger rows by hand; tournaments run a blind clock
-- and pay their players. They meet in three places: the ledger of financial transactions, from whose rows
-- the wallet, the credit drawn and the chips on a table are computed; the waitlist entries, of which
-- the seated ones say who plays; and the counters of seats of the tables.
--
-- Which file models what (paths from the root of the repository):
--   Base          Boolean tests, signed integers, texts, results, and rows of a database table as
--                 lists with find, update and delete, with their laws.
--   Entities      src/clubs/entities: one record for each row, and Db, the database as one value.
--   Ledger        src/clubs/entities/financial-transaction.entity.ts: WALLET_BALANCE_SQL,
--                 CREDIT_BALANCE_SQL and SESSION_TABLE_CHIPS_SUM_CASE_INNER as sums over the rows.
--   Credit        src/clubs/credit-used.util.ts and src/clubs/waitlist-buyin.util.ts.
--   Floor         src/clubs/services/waitlist-seating.service.ts: Waitlist and Tables for their
--                 operations, Seating for assignSeat and unseatPlayer, Sound for what they keep.
--   Cashier       src/clubs/services/buyin-request.service.ts (BuyIn), buyout-request.service.ts
--                 (BuyOut, with the statements that it repeats in Settlement) and
--                 credit-requests.service.ts (CreditRequests).
--   SessionClock  computePlayerPlaySeconds of src/utils/table-session-clock.ts, over a parsed clock, and
--                 in Pauses what pauseTableSession and resumeTableSession of
--                 src/clubs/clubs.controller.ts make of the clock.
--   Transactions  src/clubs/services/financial-transactions.service.ts: the entry of a row, and in
--                 Edits what may be changed of it; Overrides is the editAnyTransaction of
--                 src/clubs/services/financial-overrides.service.ts.
--   Tournaments   src/clubs/services/tournaments.service.ts: Blinds for the blind clock, State for
--                 start, pause, resume, stop and the raise of blinds, Play for endTournament, and
--                 Exit for exitTournamentPlayer and rebuyTournamentPlayer; Cancelled is the
--                 cancelRegistration of src/player-tournaments/player-tournaments.service.ts.
--   Leave         src/clubs/services/leave-management.service.ts: policies and roles, Dates for its
--                 calendar, Applications for the life of an application, History for sequences.
--   History       sequences of requests to the floor and the cashier.
--   Examples      a small club, and every general statement at a concrete input.
--
-- An operation is a function from its arguments, the instant at which it runs and the database to a
-- Result: an exception is an err of its class, numbered by its place in the function, or the value
-- that is returned with the new database. An exception inside a transaction rolls it back, so an err
-- carries no database. A transaction that locks its rows is one step. assignSeat checks once before
-- its transaction and again inside it, so it takes two databases, the one that the first checks read
-- and the one under the locks; so is the ending of a tournament, whose locked part is end_locked.
-- Loops run over lists or over the levels of a tournament, and need no fuel; but the one that catches
-- up with the blind clock has the number of levels as fuel, which it cannot use up, since each turn
-- raises the round and the round stays below that number; the count of the days of a range has their
-- number as fuel, and the search for the year of a date the date itself.
--
-- Ids are numbers, since they are only compared; next_id stands for the generator of keys. An amount
-- is an integer of ten-thousandths of a rupee, an instant a number of milliseconds. The rounding of
-- an amount to the two decimals of its column, and the column's overflow, are not modelled; the dates
-- of a leave application are whole days, without a time of day. Amounts and
-- counts are finite, and counts are whole: NaN, fractional seats and the rounding of floating point
-- are not modelled. Emitted events, log lines and the texts of exceptions are left out.
--
-- Parameters: NumberFormat, how the runtime prints a number into a note, which it does with digits,
-- signs, the point, the comma and e; and numeric, the value that the database driver makes of a
-- column of type NUMERIC, a number or its text.
--
-- Not modelled: the read-only lists, the other services of src/clubs/services (shifts,
-- payroll, bonuses, chat, and the like), the creation, change and deletion of a
-- tournament, registration for one, its timers beyond the time that they wait, the parsing of table notes into a session
-- clock, roles and guards, authentication, storage, sockets, controllers and migrations.
pub mod Base
pub mod Entities
pub mod Ledger
pub mod Credit
pub mod Floor
pub mod Cashier
pub mod Leave
pub mod SessionClock
pub mod Tournaments
pub mod Transactions
pub mod History
pub mod Examples
