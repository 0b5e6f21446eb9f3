-- ===== src/Finance/Examples.antt =====
-- The theorems on periods at one moment.
use oyna.Base.{◌+◌, ◌*◌, ◌/◌, ◌%◌, ◌≡◌, arith}
use oyna.Rules.Calendar.{Date, day_ms}
use oyna.Rules.Calendar.Laws.{local}
use oyna.Finance.{day, week, month, resolve_period}
use oyna.Finance.Laws.{IsPeriod, resolve_period_lem}

abbrev now : Date
now = 63954012345678

resolve_period_lem_example :
    let d = resolve_period day now in
    let w = resolve_period week now in
    IsPeriod now d
    × IsPeriod now w
    × IsPeriod now (resolve_period month now)
    × (d.current.to ≡ d.current.from + day_ms)
    × (w.current.to ≡ w.current.from + 7 * day_ms)
    × ((local w.current.from / day_ms + 2) % 7 ≡ 0)
resolve_period_lem_example = resolve_period_lem now (omega arith)
