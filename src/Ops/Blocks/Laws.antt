-- ===== src/Ops/Blocks/Laws.antt =====
-- `blockUser` and `unblockUser` of backend/src/ops/ops.service.ts, one after the other.
use oyna.Base.{
  ℕ, ◌-◌, ◌≡◌, ◌≢◌, refl, sym, ap, ◌∙◌, subst, inl, inr, Bool, false, Bool-cases, none, some, List,
  [], ◌∷◌, find, keep, All, update_where, ◌==◌, eq→==, ne→==,
}
use oyna.Base.Distinct.{Distinct, All-keep}
use oyna.Base.Find.{find-update_where}
use oyna.Base.Rows.{All-update, Distinct-update, update_where-absent}
use oyna.Rules.Calendar.{Date}
use oyna.Ledger.State.{Grant, User, Db, update_grant}
use oyna.Ledger.Ops.{is_blocked}
use oyna.Ledger.Invariant.{grant_id_of, IsAccounted, IsBelow, IsLedger}
use oyna.Ops.State.{OpsDb, BlockStart, ledger_of, user_of}
use oyna.Ops.Blocks.{
  BlockInput, block_user, is_dated_of, postponed, postpone_each, start_of, no_start, unblock_user,
  update_user, blocked_as, freed,
}

-- A loop that writes each row it read, by what was read, and meets every row once.
module _ {ℓ} {A : Type ℓ} (id : A → ℕ) (write : A → A → A) where
  abbrev pub write_each : List A → List A → List A
  write_each [] xs = xs
  write_each (d ∷ due) xs = write_each due (update_where (λ x. id x == id d) (write d) xs)

  write_each-spared :
      (due : List A) (x : A) (xs : List A)
      → All (λ d. id d ≢ id x) due
      → write_each due (x ∷ xs) ≡ x ∷ write_each due xs
  write_each-spared [] x xs h = refl
  write_each-spared (d ∷ due) x xs h =
      rw (ne→== (id x) (id d) (λ e. h.0 (sym e)))
        (write_each-spared due x (update_where (λ y. id y == id d) (write d) xs) h.1)

  write_each-head :
      (due : List A) (x : A) (xs : List A)
      → id (write x x) ≡ id x
      → All (λ d. id d ≢ id x) due
      → All (λ y. id y ≢ id x) xs
      → write_each (x ∷ due) (x ∷ xs) ≡ write x x ∷ write_each due xs
  write_each-head due x xs same spared d =
      rw (eq→== (id x) (id x) refl, update_where-absent id (id x) (write x) xs d)
        (write_each-spared due (write x x) xs
          (subst (λ (i : ℕ). All (λ y. id y ≢ i) due) (sym same) spared))

  pub write_each-pass :
      (p : A → Bool) (xs : List A)
      → ((x : A) → id (write x x) ≡ id x)
      → Distinct id xs
      → write_each (keep p xs) xs ≡ update_where p (λ x. write x x) xs
  write_each-pass p [] same d = refl
  write_each-pass p (x ∷ xs) same d = elim (Bool-cases (p x)) [
    | inl kept ↦ rw kept (
        write_each-head (keep p xs) x xs (same x) (All-keep (λ y. id y ≢ id x) p xs d.0) d.0
        ∙ ap (λ (t : List A). write x x ∷ t) (write_each-pass p xs same d.1))
    | inr left ↦ rw left (
        write_each-spared (keep p xs) x xs (All-keep (λ y. id y ≢ id x) p xs d.0)
        ∙ ap (λ (t : List A). x ∷ t) (write_each-pass p xs same d.1))
  ]

-- The date of the row that was read, in the row as it stands.
abbrev redated : ℕ → Grant → Grant → Grant
redated frozen g h = record h { expires_at = (postponed frozen g).expires_at }

postpone_each_lem :
    (frozen : ℕ) (due : List Grant) (db : Db)
    → postpone_each frozen due db
      ≡ record db { grants = write_each grant_id_of (redated frozen) due db.grants }
unfolding postpone_each
postpone_each_lem frozen [] db = refl
postpone_each_lem frozen (g ∷ due) db =
    postpone_each_lem frozen due (update_grant g.id (redated frozen g) db)

abbrev pub postponed_of : ℕ → ℕ → List Grant → List Grant
postponed_of user_id frozen = update_where (is_dated_of user_id) (postponed frozen)

postpone_each-pass :
    (user_id frozen : ℕ) (db : Db)
    → IsLedger db
    → postpone_each frozen (keep (is_dated_of user_id) db.grants) db
      ≡ record db { grants = postponed_of user_id frozen db.grants }
postpone_each-pass user_id frozen db l =
    postpone_each_lem frozen (keep (is_dated_of user_id) db.grants) db
    ∙ ap (λ (gs : List Grant). record db { grants = gs })
        (write_each-pass grant_id_of (redated frozen) (is_dated_of user_id) db.grants (λ g. refl)
          l.distinct)

-- Dates and users are not in the books.
postponed_of-IsLedger :
    (user_id frozen : ℕ) (users : List User) (db : Db)
    → IsLedger db
    → IsLedger (record db { users = users; grants = postponed_of user_id frozen db.grants })
postponed_of-IsLedger user_id frozen users db l = record {
  accounted =
      All-update (IsAccounted db.entries) (is_dated_of user_id) (postponed frozen) db.grants
        (λ g h. h) l.accounted;
  numbered =
      All-update (IsBelow db.next_id) (is_dated_of user_id) (postponed frozen) db.grants (λ g h. h)
        l.numbered;
  distinct =
      Distinct-update grant_id_of (is_dated_of user_id) (postponed frozen) db.grants (λ g. refl)
        l.distinct;
  filed = l.filed;
}

none_start :
    (user_id : ℕ) (starts : List BlockStart)
    → find (λ b. b.user_id == user_id) (no_start user_id starts) ≡ none
none_start user_id [] = refl
none_start user_id (b ∷ starts) = elim (Bool-cases (b.user_id == user_id)) [
  | inl hit ↦ rw hit (none_start user_id starts)
  | inr miss ↦ rw (miss, miss) (none_start user_id starts)
]

-- What a block that lasted so long has left behind.
pub record IsFreed (user_id lasted : ℕ) (now : Date) (before after : OpsDb) : Type 0 where
  grants :
      (ledger_of after).grants
      ≡ update_where (is_dated_of user_id) (postponed lasted) (ledger_of before).grants
  entries : (ledger_of after).entries ≡ (ledger_of before).entries
  ledger : IsLedger (ledger_of after)
  free : is_blocked user_id now (ledger_of after) ≡ false
  cleared : start_of user_id after ≡ none

same_user :
    (user_id : ℕ) (f : User → User) (users : List User) (u : User)
    → ((v : User) → (f v).id ≡ v.id)
    → find (λ v. v.id == user_id) users ≡ some u
    → find (λ v. v.id == user_id) (update_where (λ v. v.id == user_id) f users) ≡ some (f u)
same_user user_id f users u same found =
    find-update_where (λ v. v.id == user_id) f users u (λ v h. rw (same v) h) found

unblock_user-IsFreed :
    (user_id : ℕ) (now : Date) (db : OpsDb) (u : User) (b : BlockStart)
    → IsLedger (ledger_of db)
    → user_of user_id db ≡ some u
    → start_of user_id db ≡ some b
    → IsFreed user_id (now - b.at) now db (unblock_user user_id now db).1
unfolding unblock_user is_blocked
unblock_user-IsFreed user_id now db u b l found started =
    rw (started, found, postpone_each-pass user_id (now - b.at) (ledger_of db) l)
      (record {
        grants = refl;
        entries = refl;
        ledger = postponed_of-IsLedger user_id (now - b.at) _ (ledger_of db) l;
        free = rw (same_user user_id freed (ledger_of db).users u (λ v. refl) found) refl;
        cleared = none_start user_id db.block_starts;
      })

-- Where the books balance and the player exists, a block that is lifted leaves the player free and takes no time from
-- them: the date of each of their live grants is later by as long as the block lasted, no other grant and no
-- entry has changed, the books balance, and no start of a block is kept.
pub block-unblock_user :
    (input : BlockInput) (from until : Date) (db : OpsDb) (u : User)
    → IsLedger (ledger_of db)
    → user_of input.user_id db ≡ some u
    → IsFreed input.user_id
        (until - from)
        until
        db
        (unblock_user input.user_id until (block_user input from db).1).1
unfolding block_user
block-unblock_user input from until db u l found =
    let marked =
      record { user_id = input.user_id; at = from } ∷ no_start input.user_id db.block_starts in
    let blocked =
      update_user input.user_id (blocked_as input) (record db { block_starts = marked }) in
    let lifted =
      unblock_user-IsFreed input.user_id until blocked (blocked_as input u)
        (record { user_id = input.user_id; at = from })
        (record {
          accounted = l.accounted;
          numbered = l.numbered;
          distinct = l.distinct;
          filed = l.filed;
        })
        (same_user input.user_id (blocked_as input) (ledger_of db).users u (λ v. refl) found)
        (rw (eq→== input.user_id input.user_id refl) refl) in
    rw found (record {
      grants = lifted.grants;
      entries = lifted.entries;
      ledger = lifted.ledger;
      free = lifted.free;
      cleared = lifted.cleared;
    })
