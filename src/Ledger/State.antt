-- ===== src/Ledger/State.antt =====
-- The tables that backend/src/ledger/minute-ledger.service.ts reads and writes. A table is the list
-- of its rows, oldest first; ids (`randomUUID`) are numbers that no row has yet.
use oyna.Base.{
  ℕ, ◌+◌, Bool, true, false, ◌&&◌, Option, none, some, List, [], ◌∷◌, ◌++◌, String, ltb, leb, ◌==◌,
  if◌then◌else◌, keep, find, sum_by, update_where,
}
use oyna.Rules.Tier.{LoyaltyTier}
use oyna.Rules.Calendar.{Date}
use oyna.Rules.Spend.{MinuteKind}

pub data EntryType : Type 0 where
  credit debit expire cancel : EntryType

-- The texts with a variable part, by that part; `text` is any other.
pub data Reason : Type 0 where
  text : String → Reason
  topup_bonus_of : ℕ → Reason
  session_start : ℕ → Reason
  burned : Date → Reason
  birthday_of tenth_level : ℕ → Reason
  friend_played : String → Reason
  sale_minutes : ℕ → ℕ → Reason
  cancelled_sale refunded_sale : ℕ → String → Reason
  booking_package : String → Reason
  certificate_code : ℕ → Reason
  organizer_bonus : Reason
  compensated : ℕ → Reason
  topped_up : ℕ → ℕ → Reason

-- What a sale's key names: its transaction, or the sale and one of its players.
pub data KeyRef : Type 0 where
  of_transaction : ℕ → KeyRef
  of_sale : ℕ → ℕ → KeyRef

-- The keys `topup:…`, `topup_bonus:…`, `legacy:…`, `visits8:user:card`, `streak5:user:month`,
-- `birthday:user:year`, `lvl10:user:mode`, `referral:invitee:inviter` or `…:invitee`,
-- `booking:booking:user`, `organizer:booking`, `certificate:id` and `compensation:id:user`, and any other.
-- A month is written 12 * year + month.
pub data Key : Type 0 where
  topup topup_bonus : KeyRef → Key
  legacy : ℕ → Key
  visits8 streak5 birthday lvl10 : ℕ → ℕ → Key
  referral : Bool → ℕ → Key
  booking compensation : ℕ → ℕ → Key
  organizer certificate : ℕ → Key
  other : ℕ → Key

abbrev pub eq_ref : KeyRef → KeyRef → Bool
eq_ref (of_transaction a) (of_transaction b) = a == b
eq_ref (of_sale a u) (of_sale b v) = a == b && u == v
eq_ref _ _ = false

abbrev pub eq_key : Key → Key → Bool
eq_key (topup a) (topup b) = eq_ref a b
eq_key (topup_bonus a) (topup_bonus b) = eq_ref a b
eq_key (legacy a) (legacy b) = a == b
eq_key (visits8 u n) (visits8 v m) = u == v && n == m
eq_key (streak5 u n) (streak5 v m) = u == v && n == m
eq_key (birthday u n) (birthday v m) = u == v && n == m
eq_key (lvl10 u n) (lvl10 v m) = u == v && n == m
eq_key (referral true u) (referral true v) = u == v
eq_key (referral false u) (referral false v) = u == v
eq_key (booking a u) (booking b v) = a == b && u == v
eq_key (compensation a u) (compensation b v) = a == b && u == v
eq_key (organizer a) (organizer b) = a == b
eq_key (certificate a) (certificate b) = a == b
eq_key (other a) (other b) = a == b
eq_key _ _ = false

pub record Grant : Type 0 where
  pub id : ℕ
  pub user_id : ℕ
  pub kind : MinuteKind
  pub seconds : ℕ
  pub remaining_seconds : ℕ
  pub expires_at : Option Date
  pub source : String
  pub idempotency_key : Option Key
  pub loyalty_status : Option LoyaltyTier
  pub transaction_id : Option ℕ
  pub session_id : Option ℕ
  pub created_by_id : Option ℕ
  pub reason : Reason
  pub created_at : Date

pub record Entry : Type 0 where
  pub id : ℕ
  pub user_id : ℕ
  pub grant_id : ℕ
  pub type : EntryType
  pub seconds : ℕ
  pub reason : Reason
  pub session_id : Option ℕ
  pub created_by_id : Option ℕ
  pub created_at : Date

pub record User : Type 0 where
  pub id : ℕ
  pub is_active : Bool
  pub block_permanent : Bool
  pub blocked_until : Option Date

pub record Balance : Type 0 where
  pub user_id : ℕ
  pub available_seconds : ℕ

pub record Db : Type 0 where
  pub users : List User
  pub grants : List Grant
  pub entries : List Entry
  pub balances : List Balance
  pub next_id : ℕ

-- The texts of the exceptions.
pub data Error : Type 0 where
  credit_multiple paid_multiple bonus_multiple blocked insufficient : Error

pub data Result {ℓ} (A : Type ℓ) : Type ℓ where
  ok : A → Result A
  err : Error → Result A

-- `prisma.$transaction`: an exception undoes what the callback wrote.
abbrev pub commit {ℓ} : {A : Type ℓ} → Db → Result A × Db → Result A × Db
commit db (ok a, after) = (ok a, after)
commit db (err e, after) = (err e, db)

abbrev pub transaction {ℓ} : {A : Type ℓ} → (Db → Result A × Db) → Db → Result A × Db
transaction body db = commit db (body db)

-- `remainingSeconds: { gt: 0 }` of a user
abbrev pub is_live_of : ℕ → Grant → Bool
is_live_of user_id g = g.user_id == user_id && ltb 0 g.remaining_seconds

abbrev pub expired_by : Option Date → Date → Bool
expired_by none now = false
expired_by (some at) now = leb at now

-- … and `expiresAt: { lte: now }`
abbrev pub is_due_of : ℕ → Date → Grant → Bool
is_due_of user_id now g = is_live_of user_id g && expired_by g.expires_at now

abbrev pub remaining : Grant → ℕ
remaining g = g.remaining_seconds

-- What the grants of a user still hold.
abbrev pub live_seconds : ℕ → List Grant → ℕ
live_seconds user_id grants = sum_by remaining (keep (is_live_of user_id) grants)

abbrev pub balance_of : ℕ → List Balance → Option Balance
balance_of user_id = find (λ b. b.user_id == user_id)

-- `accountBalance.upsert`: the row of the user is rewritten, or added.
abbrev pub upsert_balance : ℕ → (Balance → Balance) → ℕ → List Balance → List Balance
upsert_balance user_id update seconds [] =
    record { user_id = user_id; available_seconds = seconds } ∷ []
upsert_balance user_id update seconds (b ∷ bs) =
    if b.user_id == user_id then update b ∷ bs else b ∷ upsert_balance user_id update seconds bs

abbrev pub create_entry : (ℕ → Entry) → Db → Db
create_entry entry db = record db {
  entries = db.entries ++ entry db.next_id ∷ [];
  next_id = db.next_id + 1;
}

-- `minuteGrant.update` by id
abbrev pub update_grant : ℕ → (Grant → Grant) → Db → Db
update_grant id f db = record db { grants = update_where (λ g. g.id == id) f db.grants }
