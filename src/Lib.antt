-- ===== src/Lib.antt =====
-- A model of the backend of OYNA, a hall of interactive game rooms (backend/src, NestJS over Prisma).
-- Players buy minutes at the till, the minutes stand in a ledger of grants that expire, a game session
-- takes ten of them from every player, and playing earns statuses and rewards.
--
-- The parts, and the files that model them:
--
-- - Rules: backend/src/domain/rules.ts. Tier: `tierFromMinutes`, `applyMonthlyDrop`,
--   `promoteImmediately`, `topupBonusMinutes`, `guestLimit`. Calendar: `almatyParts`, `almatyDate`,
--   the expiry dates, `ratingDayWindow`, `monthWindow`, `yearWindow`. Spend: `planSpend`. Rank:
--   `rankRows`, `splitByShifts`, `stockAfter`, `planRatePercent`, `inBirthdayWindow`.
-- - Ledger: backend/src/ledger/minute-ledger.service.ts. State has the tables of
--   backend/prisma/schema.prisma that it uses; Ops the private methods `creditTx`, `ensureLegacy`,
--   `expireUser`, `syncBalance`, `isBlocked`, `lockBalance`; Service `prepareBalance`, `credit`,
--   `creditTopup`, `spendForSession`; Reports `breakdown`, `launchPaidExpiry`, `expireAllDue`. The
--   invariant (Ledger/Invariant) is that each grant's remaining seconds and its outgoing entries add up
--   to what was credited to it, that ids are distinct and that the next id is above all of them.
-- - Loyalty: backend/src/loyalty/loyalty.service.ts. Service: `onSessionDebit`, `refreshStatus`,
--   `recordVisit`, `maybeStreak`, `addReferralProgress`, `onLevelTen`, `birthdayBonus`. Statuses:
--   `monthlyDrop`, `maybeMonthlyDrop`.
-- - Sessions: backend/src/game-sessions/game-sessions.service.ts. Service: `startSession`. Debit:
--   `debitBalanceOnSessionStart`. Life: `activateSession`, `pauseActiveSession`,
--   `resumeActiveSession`, `cancelPendingSession`, `endSession`, `findByToken`. They call the ledger
--   and the loyalty service, whose tables are a part of theirs.
-- - Balance: backend/src/balance/balance.service.ts: `topup`, `guestSale`, `deduct`.
-- - Cash: backend/src/cash. SaleRules: sale-rules.ts, the pure rules of a sale. The rest is
--   cash.service.ts: State has its tables, Tables its answers and look-ups; Shifts `openShift`, `closeShift`
--   and `markArrival` of backend/src/team/team.service.ts, which opening a shift calls; Drawer
--   `expected`; Moves `move`; Lines `resolveLines` and `checkBarter`; Sell the
--   checks of `sell`, Selling and Goods what it writes; Returns `cancel`, `refund` and `removeSaleMinutes`;
--   Summary `report`, `discrepancies`, `overdueShifts` and the figures of the lists. Invariant says
--   what holds between calls, and Reach takes the calls as the steps of a relation.
-- - Ops: backend/src/ops. Compensation: compensation-rules.ts. Outcome: session-outcome.ts. The rest is
--   ops.service.ts: Bookings `createBooking`, `setBookingStatus`, `resizeBooking`; Participants
--   `addParticipant`, `removeParticipant`; Packages `creditBooking`; Certificates `issueCertificate`, `activateCertificate`; Blocks
--   `blockUser`, `unblockUser`, `deletePlayer`; Compensating `compensateSession`. They use the tables
--   of the till, the ledger and the sessions.
-- - RateLimit: backend/src/security/rate-limit.service.ts.
-- - Team: backend/src/team/team-rules.ts (`copyWeek`, `lateMinutes`) and
--   backend/src/users/visit-status.ts.
-- - Finance: `resolvePeriod` and the forecast of backend/src/finance/finance-rules.ts, and the bounds
--   of a day in backend/src/dashboard/today-rules.ts.
-- - Base: lists, tests, sorting and integers under native numbers, for all of them.
--
-- How the code is modelled. A table is the list of its rows; a handler is a function from its
-- arguments, the clock and the tables to an answer and the tables. A call reads the clock once. A
-- transaction of Prisma runs its body and puts the tables back if the body throws; the row lock of
-- `lockBalance` is why such a body runs alone. Calls are taken one after another: handlers that hold no
-- transaction (`openShift`, `closeShift`, `sell`, `cancel`, `refund`) may interleave in the program, which is not
-- modelled. The exceptions of the database that `sell` may run into after its first write, on a player who is no
-- user and on a certificate code that is taken, are; elsewhere the players of a call are taken to be users. Ids
-- (`randomUUID`) are numbers that no row has; texts that nothing compares are data types by their
-- variable parts. A date is the milliseconds since 0000-03-01T00:00Z, so that the calendar needs no
-- negative numbers; `Date` and `Date.UTC` are those of the language. Money, seconds and scores are
-- whole and not negative, as the DTOs and the callers have them; they stay far below 2^53, so
-- arithmetic is exact. `Array.sort` is stable insertion sort. Loops are structural recursion over the
-- rows they read, so no fuel is used anywhere.
--
-- Not modelled: controllers, modules, DTO validation and authorisation, which are declarations; paged
-- listings and reports, which only read; the room agents' protocol behind the command queue; the
-- catalogue of the till; the reports and plain rows of the operations service, ratings, statistics, settings, tournaments and promos; the client backend
-- and the web interfaces.
pub mod Base
pub mod Rules
pub mod Ledger
pub mod Cash
pub mod Loyalty
pub mod Sessions
pub mod Ops
pub mod RateLimit
pub mod Balance
pub mod Team
pub mod Finance
