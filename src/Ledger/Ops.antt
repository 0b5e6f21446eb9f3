-- ===== src/Ledger/Ops.antt =====
-- The steps inside a transaction of backend/src/ledger/minute-ledger.service.ts: the private methods.
-- A call reads the clock once, `now`.
use oyna.Base.{
  ℕ, ◌+◌, ◌-◌, ◌%◌, Bool, true, false, ◌||◌, not, Option, none, some, List, [], ◌∷◌, ◌++◌, String,
  ltb, leb, ◌==◌, if◌then◌else◌, or_else, keep, find, length,
}
use oyna.Rules.Tier.{LoyaltyTier, bronze}
use oyna.Rules.Calendar.{Date, paid_ttl_ms, session_seconds, bonus_expires_at, reward_expires_at}
use oyna.Rules.Spend.{MinuteKind, paid, bonus, reward, compensation, manual, legacy_unknown}
use oyna.Ledger.State.{
  Key, legacy, eq_key, Reason, text, burned, Grant, Entry, User, Balance, Db, credit, expire,
  is_due_of, live_seconds, balance_of, upsert_balance, create_entry, update_grant,
}

-- `expiresAt` of `creditTx`: not given, or given as a date or as null.
pub data Expiry : Type 0 where
  by_kind : Expiry
  at_date : Option Date → Expiry

pub record CreditInput : Type 0 where
  pub user_id : ℕ
  pub seconds : ℕ
  pub kind : MinuteKind
  pub source : String
  pub reason : Reason
  pub idempotency_key : Option Key
  pub created_by_id : Option ℕ
  pub transaction_id : Option ℕ
  pub session_id : Option ℕ
  pub tier : Option LoyaltyTier
  pub expires_at : Expiry

abbrev expiry_of_kind : MinuteKind → LoyaltyTier → Date → Option Date
expiry_of_kind paid tier now = some (now + paid_ttl_ms)
expiry_of_kind compensation tier now = some (now + paid_ttl_ms)
expiry_of_kind reward tier now = reward_expires_at tier now
expiry_of_kind bonus tier now = bonus_expires_at tier now
expiry_of_kind manual tier now = none
expiry_of_kind legacy_unknown tier now = none

unfoldable pub credit_expiry : Expiry → MinuteKind → LoyaltyTier → Date → Option Date
credit_expiry by_kind kind tier now = expiry_of_kind kind tier now
credit_expiry (at_date d) kind tier now = d

abbrev pub has_key : Key → Grant → Bool
has_key key g = elim g.idempotency_key [ none ↦ false | some k ↦ eq_key k key ]

abbrev pub find_key : Option Key → List Grant → Option Grant
find_key none grants = none
find_key (some key) grants = find (has_key key) grants

abbrev pub new_grant : CreditInput → Date → ℕ → Grant
new_grant input now id = record {
  id = id;
  user_id = input.user_id;
  kind = input.kind;
  seconds = input.seconds;
  remaining_seconds = input.seconds;
  expires_at = credit_expiry input.expires_at input.kind (or_else input.tier bronze) now;
  source = input.source;
  idempotency_key = input.idempotency_key;
  loyalty_status = input.tier;
  transaction_id = input.transaction_id;
  session_id = input.session_id;
  created_by_id = input.created_by_id;
  reason = input.reason;
  created_at = now;
}

abbrev pub credit_entry : CreditInput → Date → ℕ → ℕ → Entry
credit_entry input now grant_id id = record {
  id = id;
  user_id = input.user_id;
  grant_id = grant_id;
  type = credit;
  seconds = input.seconds;
  reason = input.reason;
  session_id = input.session_id;
  created_by_id = input.created_by_id;
  created_at = now;
}

abbrev pub create_grant : CreditInput → Date → Db → Grant × Db
create_grant input now db =
    let grant = new_grant input now db.next_id in
    let added = record db { grants = db.grants ++ grant ∷ []; next_id = db.next_id + 1 } in
    (grant, create_entry (credit_entry input now grant.id) added)

-- A grant with the same key is returned as it is.
unfoldable pub credit_tx : CreditInput → Date → Db → Grant × Db
credit_tx input now db = elim (find_key input.idempotency_key db.grants) [
  | some existing ↦ (existing, db)
  | none ↦ create_grant input now db
]

abbrev pub legacy_input : ℕ → ℕ → CreditInput
legacy_input user_id seconds = record {
  user_id = user_id;
  seconds = seconds;
  kind = legacy_unknown;
  source = "legacy";
  reason = text "Остаток до журнала минут. До запуска правила 24 часов срок не назначен.";
  idempotency_key = some (legacy user_id);
  created_by_id = none;
  transaction_id = none;
  session_id = none;
  tier = none;
  expires_at = at_date none;
}

abbrev pub legacy_from : ℕ → Date → Option Balance → Db → Db
legacy_from user_id now none db = db
legacy_from user_id now (some balance) db =
    let seconds = balance.available_seconds - balance.available_seconds % session_seconds in
    if leb balance.available_seconds 0 || leb seconds 0
    then db
    else (credit_tx (legacy_input user_id seconds) now db).1

-- A balance from before the ledger becomes a grant, once.
unfoldable pub ensure_legacy : ℕ → Date → Db → Db
ensure_legacy user_id now db =
    if ltb 0 (length (keep (λ g. g.user_id == user_id) db.grants))
    then db
    else legacy_from user_id now (balance_of user_id db.balances) db

abbrev pub expire_entry : ℕ → Date → Grant → ℕ → Entry
expire_entry user_id now g id = record {
  id = id;
  user_id = user_id;
  grant_id = g.id;
  type = expire;
  seconds = g.remaining_seconds;
  reason = burned g.created_at;
  session_id = none;
  created_by_id = none;
  created_at = now;
}

-- The body of the loop of `expireUser`.
unfoldable pub expire_grant : ℕ → Date → Grant → Db → Db
expire_grant user_id now g db =
    update_grant g.id (λ h. record h { remaining_seconds = 0 })
      (create_entry (expire_entry user_id now g) db)

unfoldable pub expire_each : ℕ → Date → List Grant → Db → Db
expire_each user_id now [] db = db
expire_each user_id now (g ∷ due) db = expire_each user_id now due (expire_grant user_id now g db)

unfoldable pub expire_user : ℕ → Date → Db → Db
expire_user user_id now db = expire_each user_id now (keep (is_due_of user_id now) db.grants) db

-- The cached balance is written anew from the grants.
unfoldable pub sync_balance : ℕ → Db → ℕ × Db
sync_balance user_id db =
    let seconds = live_seconds user_id db.grants in
    let set = λ (b : Balance). record b { available_seconds = seconds } in
    (seconds, record db { balances = upsert_balance user_id set seconds db.balances })

-- `blockedUntil && blockedUntil > now`
abbrev pub blocked_at : Option Date → Date → Bool
blocked_at none now = false
blocked_at (some until) now = ltb now until

abbrev pub user_blocked : Option User → Date → Bool
user_blocked none now = true
user_blocked (some u) now = not u.is_active || u.block_permanent || blocked_at u.blocked_until now

unfoldable pub is_blocked : ℕ → Date → Db → Bool
is_blocked user_id now db = user_blocked (find (λ u. u.id == user_id) db.users) now

-- The row is made if it is missing; the row lock orders the transactions of one player.
-- For a user who is no row of `users` the database throws here (a foreign key) and the transaction writes nothing:
-- callers that have written before have read the user's row, but for `sell`, which is modelled with that exception.
unfoldable pub lock_balance : ℕ → Db → Db
lock_balance user_id db = record db { balances = upsert_balance user_id (λ b. b) 0 db.balances }
