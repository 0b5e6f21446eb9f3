-- ===== src/RateLimit.antt =====
-- backend/src/security/rate-limit.service.ts: how many attempts a key has.
pub mod Laws
mod Examples
use oyna.Base.{
  ℕ, ◌+◌, ◌-◌, ◌*◌, ◌/◌, Bool, false, Option, none, some, ltb, leb, ◌==◌, if◌then◌else◌,
}
use oyna.Rules.Calendar.{Date}

abbrev pub fifteen_min : ℕ
fifteen_min = 15 * 60 * 1000

pub record RateRow : Type 0 where
  pub fail_count : ℕ
  pub window_start : Date
  pub locked_until : Option Date

-- The rows by their keys, which are only compared.
abbrev pub Rows : Type 0
Rows = ℕ → Option RateRow

abbrev pub put : ℕ → Option RateRow → Rows → Rows
put key row rows k = if k == key then row else rows k

-- The waiting time in seconds, rounded up, that goes with a refusal.
abbrev pub ceil_seconds : ℕ → ℕ
ceil_seconds ms = (ms + 999) / 1000

abbrev pub retry_after : Option Date → Date → Option ℕ
retry_after none now = none
retry_after (some until) now = if ltb now until then some (ceil_seconds (until - now)) else none

abbrev pub locked_retry : Option RateRow → Date → Option ℕ
locked_retry none now = none
locked_retry (some row) now = retry_after row.locked_until now

-- `some`: the call is refused, and how long to wait.
unfoldable pub assert_not_locked : ℕ → Date → Rows → Option ℕ
assert_not_locked key now rows = locked_retry (rows key) now

abbrev pub lock_over : Option Date → Date → Bool
lock_over none now = false
lock_over (some until) now = leb until now

abbrev pub lock_from : ℕ → Date → Option Date → Option Date
lock_from fail_count now before = if leb 5 fail_count then some (now + fifteen_min) else before

-- A first failure, or one after a lock that is over, starts the count again.
abbrev pub first_failure : Date → RateRow
first_failure now = record { fail_count = 1; window_start = now; locked_until = none }

abbrev pub next_failure : RateRow → Date → RateRow
next_failure row now = record row {
  fail_count = row.fail_count + 1;
  locked_until = lock_from (row.fail_count + 1) now row.locked_until;
}

abbrev pub failed_row : Option RateRow → Date → RateRow
failed_row none now = first_failure now
failed_row (some row) now =
    if lock_over row.locked_until now then first_failure now else next_failure row now

-- Whether the key is locked now.
unfoldable pub record_failure : ℕ → Date → Rows → Bool × Rows
record_failure key now rows =
    let row = failed_row (rows key) now in (leb 5 row.fail_count, put key (some row) rows)

abbrev pub unless_locked : Option RateRow → Option RateRow
unless_locked none = none
unless_locked (some row) = elim row.locked_until [ none ↦ none | some until ↦ some row ]

unfoldable pub clear_failures : ℕ → Rows → Rows
clear_failures key rows = put key (unless_locked (rows key)) rows

abbrev pub hit_row : Option RateRow → ℕ → ℕ → Date → Option ℕ × RateRow
hit_row none limit window_ms now = (none, first_failure now)
hit_row (some row) limit window_ms now =
    if leb window_ms (now - row.window_start)
    then (none, first_failure now)
    else if leb limit row.fail_count
    then (some (ceil_seconds (row.window_start + window_ms - now)), row)
    else (none, record row { fail_count = row.fail_count + 1 })

unfoldable pub hit_window : ℕ → ℕ → ℕ → Date → Rows → Option ℕ × Rows
hit_window key limit window_ms now rows =
    let (answer, row) = hit_row (rows key) limit window_ms now in (answer, put key (some row) rows)

-- A hundred attempts in a minute from one address.
unfoldable pub assert_login_ip : ℕ → Date → Rows → Option ℕ × Rows
assert_login_ip key now rows = hit_window key 100 (60 * 1000) now rows
