-- ===== src/Ops/Blocks/Deleting.antt =====
-- What `deletePlayer` of backend/src/ops/ops.service.ts leaves of a player's minutes.
use oyna.Base.{
  ℕ, ◌≡◌, refl, ap, ◌∙◌, subst, Bool, true, false, some, List, [], ◌∷◌, find, keep, length, ltb,
  update_where, ◌==◌, arith,
}
use oyna.Base.Find.{find-update_where}
use oyna.Rules.Calendar.{Date}
use oyna.Ledger.State.{Grant, User, Db, balance_of, is_live_of}
use oyna.Ledger.Ops.{is_blocked, ensure_legacy, lock_balance, sync_balance}
use oyna.Ledger.Service.{opened, prepare_balance}
use oyna.Ledger.Prepare.{prepare_balance-frozen}
use oyna.Ledger.Invariant.Rows.{held}
use oyna.Ledger.Spending.{sync_balance-held}
use oyna.Ops.State.{OpsDb, ledger_of, user_of}
use oyna.Ops.Blocks.{spent_grant, delete_player}

abbrev pub spent_of : ℕ → List Grant → List Grant
spent_of user_id = update_where (is_live_of user_id) spent_grant

abbrev pub own : ℕ → Grant → Bool
own user_id g = g.user_id == user_id

spent_of_count :
    (user_id : ℕ) (gs : List Grant)
    → length (keep (own user_id) (spent_of user_id gs)) ≡ length (keep (own user_id) gs)
spent_of_count user_id [] = refl
spent_of_count user_id (g ∷ gs) = ground (arith, spent_of_count user_id gs)

spent_of_nothing : (user_id : ℕ) (gs : List Grant) → held user_id (spent_of user_id gs) ≡ 0
spent_of_nothing user_id [] = refl
spent_of_nothing user_id (g ∷ gs) = ground (arith, spent_of_nothing user_id gs)

-- A player with a grant is not from before the ledger.
opened-known :
    (user_id : ℕ) (now : Date) (db : Db)
    → ltb 0 (length (keep (own user_id) db.grants)) ≡ true
    → opened user_id now db ≡ lock_balance user_id db
unfolding opened ensure_legacy lock_balance
opened-known user_id now db known = rw known refl

emptied_tables : ℕ → Db → Db
emptied_tables user_id d = record d {
  users = update_where (λ u. u.id == user_id) (λ u. record u { is_active = false }) d.users;
  grants = spent_of user_id d.grants;
}

still_blocked :
    (user_id : ℕ) (at : Date) (d : Db) (u : User)
    → find (λ v. v.id == user_id) d.users ≡ some u
    → is_blocked user_id at (emptied_tables user_id d) ≡ true
unfolding is_blocked emptied_tables
still_blocked user_id at d u found =
    rw
      (find-update_where (λ v. v.id == user_id) (λ v. record v { is_active = false }) d.users u
        (λ v h. h) found)
      refl

-- What the deletion of a player leaves of their minutes.
pub record IsGone (user_id : ℕ) (before after : Db) : Type 0 where
  grants : after.grants ≡ update_where (is_live_of user_id) spent_grant before.grants
  nothing : held user_id after.grants ≡ 0
  cached :
      balance_of user_id after.balances ≡ some (record { user_id = user_id; available_seconds = 0 })
  stopped : (at : Date) → is_blocked user_id at after ≡ true

IsGone-after :
    (user_id : ℕ) (now : Date) (d : Db) (u : User)
    → find (λ v. v.id == user_id) d.users ≡ some u
    → ltb 0 (length (keep (own user_id) d.grants)) ≡ true
    → IsGone user_id d (prepare_balance user_id now (emptied_tables user_id d)).1
unfolding emptied_tables is_blocked sync_balance lock_balance
IsGone-after user_id now d u found known =
    let e = emptied_tables user_id d in
    let locked = lock_balance user_id e in
    let path =
      prepare_balance-frozen user_id now e (still_blocked user_id now d u found)
      ∙ ap (sync_balance user_id)
          (opened-known user_id now e (rw (spent_of_count user_id d.grants) known)) in
    rw path (record {
      grants = refl;
      nothing = spent_of_nothing user_id d.grants;
      cached =
          subst
            (λ (k : ℕ).
              balance_of user_id (sync_balance user_id locked).1.balances
              ≡ some (record { user_id = user_id; available_seconds = k }))
            (spent_of_nothing user_id d.grants) (sync_balance-held user_id locked);
      stopped = λ at. still_blocked user_id at d u found;
    })

-- A player who exists and has a grant, and who is deleted, holds nothing, in the grants and in the cached balance,
-- and is stopped from then on, at any time; no grant of anybody else and none of the player's that held nothing
-- has changed.
pub delete_player-IsGone :
    (user_id : ℕ) (now : Date) (db : OpsDb) (u : User)
    → user_of user_id db ≡ some u
    → ltb 0 (length (keep (own user_id) (ledger_of db).grants)) ≡ true
    → IsGone user_id (ledger_of db) (ledger_of (delete_player user_id now db).1)
unfolding delete_player emptied_tables
delete_player-IsGone user_id now db u found known =
    rw found (unfold emptied_tables in IsGone-after user_id now (ledger_of db) u found known)
