-- ===== src/RateLimit/Laws.antt =====
-- Runs of failures and of hits of backend/src/security/rate-limit.service.ts.
use oyna.Base.{
  ℕ, ◌+◌, ◌-◌, ◌≤◌, ◌<◌, ◌≡◌, refl, ap, ◌∙◌, inl, inr, min, true, Bool-cases, Option, none, some,
  List, [], ◌∷◌, All, length, ltb, leb, if◌then◌else◌, arith, eq→==, is_some, le→ltb, lt→ltb,
  lt→leb, le→leb, ltb→lt, ltb→le,
}
use oyna.Rules.Calendar.{Date}
use oyna.RateLimit.{
  RateRow, Rows, put, ceil_seconds, fifteen_min, assert_not_locked, locked_retry, retry_after,
  failed_row, first_failure, record_failure, hit_row, hit_window,
}

put_same : (key : ℕ) (row : Option RateRow) (rows : Rows) → put key row rows key ≡ row
put_same key row rows = rw (eq→== key key refl) refl

-- Failures of one key, one after the other, and what they do to its row.
unfoldable pub failures : ℕ → List Date → Rows → Rows
failures key [] rows = rows
failures key (t ∷ ts) rows = failures key ts (record_failure key t rows).1

abbrev row_after : List Date → Option RateRow → Option RateRow
row_after [] row = row
row_after (t ∷ ts) row = row_after ts (some (failed_row row t))

failures-row :
    (key : ℕ) (ts : List Date) (rows : Rows) → failures key ts rows key ≡ row_after ts (rows key)
unfolding failures record_failure
failures-row key [] rows = refl
failures-row key (t ∷ ts) rows =
    failures-row key ts (record_failure key t rows).1
    ∙ ap (row_after ts) (put_same key (some (failed_row (rows key) t)) rows)

-- The row of a key after four failures, none of which locked it.
abbrev four_failures : Date → RateRow
four_failures first = record { fail_count = 4; window_start = first; locked_until = none }

row_after_four :
    (first : Date) (between : List Date)
    → length between ≡ 3
    → row_after (first ∷ between) none ≡ some (four_failures first)
row_after_four first [] three = cc
row_after_four first (a ∷ []) three = cc
row_after_four first (a ∷ b ∷ []) three = cc
row_after_four first (a ∷ b ∷ c ∷ []) three = refl
row_after_four first (a ∷ b ∷ c ∷ d ∷ ts) three = elim (too_long ts three) [ ]
  where
    too_long : (ts : List Date) → length (a ∷ b ∷ c ∷ d ∷ ts) ≡ 3 → ⊥
    too_long ts h = omega (arith, h)

locked_for_900 : (last : Date) → retry_after (some (last + fifteen_min)) last ≡ some 900
locked_for_900 last =
    let minutes : ceil_seconds (last + fifteen_min - last) ≡ 900 = omega arith in
    rw (lt→ltb last (last + fifteen_min) (omega arith), minutes) refl

open_after : (last : Date) → retry_after (some last) last ≡ none
open_after last = rw (le→ltb last last (omega arith)) refl

fifth :
    (key : ℕ) (first last : Date) (before : Rows)
    → before key ≡ some (four_failures first)
    → let (locked, after) = record_failure key last before in
      (assert_not_locked key last before ≡ none)
      × (locked ≡ true)
      × (assert_not_locked key last after ≡ some 900)
      × (assert_not_locked key (last + fifteen_min) after ≡ none)
unfolding record_failure assert_not_locked
fifth key first last before e =
    let r : RateRow = record {
      fail_count = 5;
      window_start = first;
      locked_until = some (last + fifteen_min);
    } in
    let is_fifth : failed_row (before key) last ≡ r =
      ap (λ (o : Option RateRow). failed_row o last) e in
    let now_locked : put key (some (failed_row (before key) last)) before key ≡ some r =
      put_same key (some (failed_row (before key) last)) before ∙ ap some is_fifth in
    (
      ap (λ (o : Option RateRow). locked_retry o last) e,
      ap (λ (row : RateRow). leb 5 row.fail_count) is_fifth,
      ap (λ (o : Option RateRow). locked_retry o last) now_locked ∙ locked_for_900 last,
      ap (λ (o : Option RateRow). locked_retry o (last + fifteen_min)) now_locked
          ∙ open_after (last + fifteen_min),
    )

-- A key that has no row is locked by its fifth failure, for fifteen minutes from then, and not before.
pub record_failure_locks :
    (key : ℕ) (first last : Date) (between : List Date) (rows : Rows)
    → rows key ≡ none
    → length between ≡ 3
    → let before = failures key (first ∷ between) rows in
      let (locked, after) = record_failure key last before in
      (assert_not_locked key last before ≡ none)
      × (locked ≡ true)
      × (assert_not_locked key last after ≡ some 900)
      × (assert_not_locked key (last + fifteen_min) after ≡ none)
record_failure_locks key first last between rows fresh three =
    fifth key first last (failures key (first ∷ between) rows) (
      failures-row key (first ∷ between) rows
      ∙ ap (row_after (first ∷ between)) fresh
      ∙ row_after_four first between three)

-- How many of the hits are let through.
unfoldable pub let_through : ℕ → ℕ → ℕ → List Date → Rows → ℕ
let_through key limit window_ms [] rows = 0
let_through key limit window_ms (t ∷ ts) rows =
    let (answer, after) = hit_window key limit window_ms t rows in
    (if is_some answer then 0 else 1) + let_through key limit window_ms ts after

abbrev IsWithin : Date → ℕ → Date → Type 0
IsWithin start window_ms t = t < start + window_ms

-- The hits after one whose answer and row are known.
abbrev count_from : ℕ → ℕ → ℕ → List Date → Rows → Option ℕ × RateRow → ℕ
count_from key limit window_ms ts rows h =
    (if is_some h.0 then 0 else 1) + let_through key limit window_ms ts (put key (some h.1) rows)

let_through-step :
    (key limit window_ms : ℕ) (t : Date) (ts : List Date) (rows : Rows) (h : Option ℕ × RateRow)
    → hit_row (rows key) limit window_ms t ≡ h
    → let_through key limit window_ms (t ∷ ts) rows ≡ count_from key limit window_ms ts rows h
unfolding let_through hit_window
let_through-step key limit window_ms t ts rows h e = ap (count_from key limit window_ms ts rows) e

let_through-nil :
    (key limit window_ms : ℕ) (rows : Rows) → let_through key limit window_ms [] rows ≡ 0
unfolding let_through
let_through-nil key limit window_ms rows = refl

hit_full :
    (row : RateRow) (limit window_ms : ℕ) (t : Date)
    → t < row.window_start + window_ms
    → 0 < window_ms
    → limit ≤ row.fail_count
    → hit_row (some row) limit window_ms t
      ≡ (some (ceil_seconds (row.window_start + window_ms - t)), row)
hit_full row limit window_ms t inside some_time full =
    rw (lt→leb window_ms (t - row.window_start) (omega arith), le→leb limit row.fail_count full)
      refl

hit_open :
    (row : RateRow) (limit window_ms : ℕ) (t : Date)
    → t < row.window_start + window_ms
    → 0 < window_ms
    → row.fail_count < limit
    → hit_row (some row) limit window_ms t ≡ (none, record row { fail_count = row.fail_count + 1 })
hit_open row limit window_ms t inside some_time few =
    rw (lt→leb window_ms (t - row.window_start) (omega arith), lt→leb limit row.fail_count few) refl

full_window :
    (key limit window_ms : ℕ) (ts : List Date) (rows : Rows) (row : RateRow)
    → rows key ≡ some row
    → row.fail_count ≤ limit
    → 0 < window_ms
    → All (IsWithin row.window_start window_ms) ts
    → let_through key limit window_ms ts rows ≡ min (limit - row.fail_count) (length ts)
full_window key limit window_ms [] rows row e few some_time inside =
    let_through-nil key limit window_ms rows ∙ omega arith
full_window key limit window_ms (t ∷ ts) rows row e few some_time inside =
    elim (Bool-cases (ltb row.fail_count limit)) [
      | inl less ↦
          let next = record row { fail_count = row.fail_count + 1 } in
          let lt = ltb→lt row.fail_count limit less in
          let rest =
            full_window key limit window_ms ts (put key (some next) rows) next
              (put_same key (some next) rows) (omega (arith, lt)) some_time inside.1 in
          let_through-step key limit window_ms t ts rows (none, next)
            (ap (λ (o : Option RateRow). hit_row o limit window_ms t) e
              ∙ hit_open row limit window_ms t inside.0 some_time lt)
          ∙ omega (arith, rest, lt)
      | inr full ↦
          let ge = ltb→le row.fail_count limit full in
          let rest =
            full_window key limit window_ms ts (put key (some row) rows) row
              (put_same key (some row) rows) few some_time inside.1 in
          let_through-step key limit window_ms t ts rows
            (some (ceil_seconds (row.window_start + window_ms - t)), row)
            (ap (λ (o : Option RateRow). hit_row o limit window_ms t) e
              ∙ hit_full row limit window_ms t inside.0 some_time ge)
          ∙ omega (arith, rest, ge)
    ]

-- Of the hits of a key that has no row, within one window from the first, exactly as many as the limit
-- are let through, or all if they are fewer.
pub hit_window_limit :
    (key limit window_ms : ℕ) (first : Date) (ts : List Date) (rows : Rows)
    → rows key ≡ none
    → 0 < limit
    → 0 < window_ms
    → All (IsWithin first window_ms) ts
    → let_through key limit window_ms (first ∷ ts) rows ≡ min limit (length (first ∷ ts))
hit_window_limit key limit window_ms first ts rows fresh some_limit some_time inside =
    let row = first_failure first in
    let rest =
      full_window key limit window_ms ts (put key (some row) rows) row
        (put_same key (some row) rows) some_limit some_time inside in
    let_through-step key limit window_ms first ts rows (none, row)
      (ap (λ (o : Option RateRow). hit_row o limit window_ms first) fresh)
    ∙ omega (arith, rest)
