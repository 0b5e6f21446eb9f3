-- ===== src/Ops/Blocks.antt =====
-- `blockUser`, `unblockUser` and `deletePlayer` of backend/src/ops/ops.service.ts. The reason of a block and the
-- audit log are left out.
pub mod Laws
pub mod Deleting
use oyna.Base.{
  ℕ, ◌+◌, ◌-◌, Bool, true, false, ◌&&◌, not, is_some, Option, none, some, List, [], ◌∷◌, ◌==◌,
  if◌then◌else◌, find, keep, update_where,
}
use oyna.Rules.Calendar.{Date}
use oyna.Ledger.State.{Grant, User, Db, is_live_of, update_grant}
use oyna.Ledger.Service.{prepare_balance}
use oyna.Loyalty.State.{Profile, update_profile}
use oyna.Ops.State.{
  BlockStart, OpsDb, no_user, Outcome, done, failed, ledger_of, with_ledger, user_of,
}

pub record BlockInput : Type 0 where
  pub user_id : ℕ
  pub until : Option Date
  pub permanent : Bool

abbrev pub update_user : ℕ → (User → User) → OpsDb → OpsDb
update_user user_id f db =
    with_ledger
      (record (ledger_of db) { users = update_where (λ u. u.id == user_id) f (ledger_of db).users })
      db

abbrev pub blocked_as : BlockInput → User → User
blocked_as input u = record u {
  block_permanent = input.permanent;
  blocked_until = if input.permanent then none else input.until;
}

abbrev pub no_start : ℕ → List BlockStart → List BlockStart
no_start user_id starts = keep (λ b. not (b.user_id == user_id)) starts

-- The update of a missing row is an exception.
unfoldable pub block_user : BlockInput → Date → OpsDb → Outcome {0} Unit × OpsDb
block_user input now db =
    let marked = record db {
      block_starts =
          record { user_id = input.user_id; at = now } ∷ no_start input.user_id db.block_starts;
    } in
    if is_some (user_of input.user_id db)
    then (done tt, update_user input.user_id (blocked_as input) marked)
    else (failed no_user, db)

-- `remainingSeconds: { gt: 0 }, expiresAt: { not: null }`
abbrev pub is_dated_of : ℕ → Grant → Bool
is_dated_of user_id g = is_live_of user_id g && is_some g.expires_at

abbrev later_by : ℕ → Option Date → Option Date
later_by frozen none = none
later_by frozen (some at) = some (at + frozen)

abbrev pub postponed : ℕ → Grant → Grant
postponed frozen g = record g { expires_at = later_by frozen g.expires_at }

-- The body of the loop writes the date that was read.
unfoldable pub postpone_each : ℕ → List Grant → Db → Db
postpone_each frozen [] db = db
postpone_each frozen (g ∷ gs) db =
    postpone_each frozen gs
      (update_grant g.id (λ h. record h { expires_at = (postponed frozen g).expires_at }) db)

abbrev pub start_of : ℕ → OpsDb → Option BlockStart
start_of user_id db = find (λ b. b.user_id == user_id) db.block_starts

-- The clock does not run backwards: `now` is not before the block.
abbrev pub thaw : ℕ → Option BlockStart → Date → Db → Db
thaw user_id none now db = db
thaw user_id (some b) now db = postpone_each (now - b.at) (keep (is_dated_of user_id) db.grants) db

abbrev pub freed : User → User
freed u = record u { is_active = true; block_permanent = false; blocked_until = none }

unfoldable pub unblock_user : ℕ → Date → OpsDb → Outcome {0} Unit × OpsDb
unblock_user user_id now db =
    let thawed = with_ledger (thaw user_id (start_of user_id db) now (ledger_of db)) db in
    let cleared = record thawed { block_starts = no_start user_id db.block_starts } in
    if is_some (user_of user_id db)
    then (done tt, update_user user_id freed cleared)
    else (failed no_user, db)

abbrev pub forgotten : Date → Profile → Profile
forgotten now p = record p { nickname = "deleted"; birth_date = none; deleted_at = some now }

abbrev pub spent_grant : Grant → Grant
spent_grant g = record g { remaining_seconds = 0 }

-- The minutes are set to nothing in one update, with no entry in the journal.
unfoldable pub delete_player : ℕ → Date → OpsDb → Outcome {0} Unit × OpsDb
delete_player user_id now db =
    let d = ledger_of db in
    let emptied = record d {
      users = update_where (λ u. u.id == user_id) (λ u. record u { is_active = false }) d.users;
      grants = update_where (is_live_of user_id) spent_grant d.grants;
    } in
    let after = with_ledger (prepare_balance user_id now emptied).1 db in
    if is_some (user_of user_id db)
    then (
      done tt,
      record after {
        till = record after.till {
          club = record after.till.club {
            profiles = update_profile user_id (forgotten now) after.till.club.profiles;
          };
        };
      },
    )
    else (failed no_user, db)
