-- ===== src/Ledger/Reports.antt =====
-- The remaining methods of backend/src/ledger/minute-ledger.service.ts: the sweep over all players, the
-- launch of the 24-hour rule, and the reports. Texts in the answers are left out.
use oyna.Base.{
  ℕ, ◌+◌, Bool, true, false, Option, none, some, List, [], ◌∷◌, length, keep, map, find, is_some,
  sum_by, take, ltb, ◌==◌, if◌then◌else◌, ◌&&◌, ◌||◌, not, unique,
}
use oyna.Rules.Calendar.{Date, paid_ttl_ms}
use oyna.Rules.Spend.{MinuteKind, paid, compensation, legacy_unknown}
use oyna.Ledger.State.{Grant, User, Db, is_live_of, expired_by, remaining, update_grant}
use oyna.Ledger.Ops.{expire_user, sync_balance, lock_balance, blocked_at}

abbrev pub is_paid_kind : MinuteKind → Bool
is_paid_kind paid = true
is_paid_kind compensation = true
is_paid_kind legacy_unknown = true
is_paid_kind _ = false

-- The earlier of two dates, where one is known.
abbrev earlier : Option Date → Option Date → Option Date
earlier none best = best
earlier (some at) none = some at
earlier (some at) (some best) = if ltb at best then some at else some best

pub record Breakdown : Type 0 where
  pub paid_seconds : ℕ
  pub bonus_seconds : ℕ
  pub paid_expires_at : Option Date
  pub bonus_expires_at : Option Date

abbrev pub add_grant : Grant → Breakdown → Breakdown
add_grant g b =
    if is_paid_kind g.kind
    then record b {
      paid_seconds = b.paid_seconds + g.remaining_seconds;
      paid_expires_at = earlier g.expires_at b.paid_expires_at;
    }
    else record b {
      bonus_seconds = b.bonus_seconds + g.remaining_seconds;
      bonus_expires_at = earlier g.expires_at b.bonus_expires_at;
    }

unfoldable pub breakdown_from : Breakdown → List Grant → Breakdown
breakdown_from b [] = b
breakdown_from b (g ∷ gs) = breakdown_from (add_grant g b) gs

-- The rows come by `expiresAt`, on which none of the four results depends.
unfoldable pub breakdown : ℕ → Db → Breakdown
breakdown user_id db =
    breakdown_from
      (record {
        paid_seconds = 0;
        bonus_seconds = 0;
        paid_expires_at = none;
        bonus_expires_at = none;
      })
      (keep (is_live_of user_id) db.grants)

abbrev launched : MinuteKind → Bool
launched legacy_unknown = true
launched paid = true
launched _ = false

-- A live grant with no date, of a kind that the launch gives one.
abbrev pub is_open_ended : Grant → Bool
is_open_ended g = ltb 0 g.remaining_seconds && not (is_some g.expires_at) && launched g.kind

pub record Launch : Type 0 where
  pub expires_at : Date
  pub grants : ℕ
  pub unknown_seconds : ℕ
  pub paid_seconds : ℕ

unfoldable pub launch_each : Date → List Grant → Db → Db
launch_each expires_at [] db = db
launch_each expires_at (g ∷ legacy) db =
    launch_each expires_at legacy
      (update_grant g.id (λ h. record h { expires_at = some expires_at }) db)

abbrev is_unknown : Grant → Bool
is_unknown g = elim g.kind [ legacy_unknown ↦ true | _ ↦ false ]

-- The date of the launch itself goes to a table of settings, which nothing here reads.
unfoldable pub launch_paid_expiry : Date → Db → Launch × Db
launch_paid_expiry now db =
    let expires_at = now + paid_ttl_ms in
    let legacy = keep is_open_ended db.grants in
    (
      record {
        expires_at = expires_at;
        grants = length legacy;
        unknown_seconds = sum_by remaining (keep is_unknown legacy);
        paid_seconds = sum_by remaining (keep (λ g. not (is_unknown g)) legacy);
      },
      launch_each expires_at legacy db,
    )

-- `OR: [{ blockPermanent: true }, { blockedUntil: { gt: now } }]` of a user
abbrev pub is_held_back : Date → User → Bool
is_held_back now u = u.block_permanent || blocked_at u.blocked_until now

unfoldable pub sweep_user : Date → ℕ → Db → Db
sweep_user now user_id db =
    if is_some (find (λ u. u.id == user_id && is_held_back now u) db.users)
    then db
    else (sync_balance user_id (expire_user user_id now (lock_balance user_id db))).1

unfoldable pub sweep_each : Date → List ℕ → Db → Db
sweep_each now [] db = db
sweep_each now (user_id ∷ due) db = sweep_each now due (sweep_user now user_id db)

-- The players with a due grant, at most 500 in one sweep.
abbrev pub due_users : Date → List Grant → List ℕ
due_users now gs = take 500 (
    unique (
      map (λ g. g.user_id)
        (keep (λ g. ltb 0 g.remaining_seconds && expired_by g.expires_at now) gs)))

unfoldable pub expire_all_due : Date → Db → ℕ × Db
expire_all_due now db = let due = due_users now db.grants in (length due, sweep_each now due db)
