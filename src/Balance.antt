-- ===== src/Balance.antt =====
-- backend/src/balance/balance.service.ts: top-ups at the till, sales to guests and the plain deduction.
pub mod Laws
mod Examples
use oyna.Base.{
  ℕ, ◌+◌, ◌-◌, ◌*◌, ◌/◌, ◌%◌, Bool, true, false, ◌&&◌, ◌||◌, not, or_else, Option, none, some, List,
  [], ◌∷◌, ◌++◌, String, ltb, ◌==◌, if◌then◌else◌, any, find, contains,
}
use oyna.Base.Int.{pos, ◌-ℤ◌}
use oyna.Rules.Tier.{LoyaltyTier}
use oyna.Rules.Calendar.{Date}
use oyna.Ledger.State.{
  User, Balance, Db, Error, Result, ok, err, Reason, text, topped_up, balance_of, upsert_balance,
}
use oyna.Ledger.Ops.{blocked_at, lock_balance}
use oyna.Ledger.Service.{TopupInput, ToppedUp, credit_topup}
use oyna.Loyalty.State.{Profile, profile_of}
use oyna.Sessions.State.{
  Transaction, purchase, bonus_grant, game_debit, Description, given, topup_of, bonus_part,
  guest_sale_of, balance_debit,
}

pub record RoomOf : Type 0 where
  pub id : ℕ
  pub venue_id : ℕ

-- The tables that the service reads and writes. `open_shifts`: the venues with an open cash shift.
pub record Till : Type 0 where
  pub ledger : Db
  pub profiles : List Profile
  pub transactions : List Transaction
  pub venues : List ℕ
  pub rooms : List RoomOf
  pub open_shifts : List ℕ
  pub next_id : ℕ

-- The texts of the exceptions.
pub data TillError : Type 0 where
  no_venue other_venue no_shift no_user is_blocked_user : TillError
  bonus_above not_tens no_purchase low_balance : TillError

-- `description`: none where it is missing or empty.
pub record TopupDto : Type 0 where
  pub user_id : ℕ
  pub seconds : ℕ
  pub bonus_seconds : Option ℕ
  pub amount_tenge : ℕ
  pub venue_id : Option ℕ
  pub description : Option String

abbrev pub bonus_of : TopupDto → ℕ
bonus_of dto = or_else dto.bonus_seconds 0

abbrev pub purchase_of : TopupDto → ℕ
purchase_of dto = dto.seconds - bonus_of dto

-- `requireOpenShift`, where a venue is given.
abbrev pub lacks_shift : Option ℕ → Till → Bool
lacks_shift none till = false
lacks_shift (some venue_id) till = not (contains venue_id till.open_shifts)

-- The guards, in their order.
unfoldable pub topup_check : TopupDto → User → Date → Till → Option TillError
topup_check dto u now till =
    if u.block_permanent || blocked_at u.blocked_until now
    then some is_blocked_user
    else if lacks_shift dto.venue_id till
    then some no_shift
    else if ltb dto.seconds (bonus_of dto)
    then some bonus_above
    else if not (purchase_of dto % 600 == 0) || not (bonus_of dto % 600 == 0)
    then some not_tens
    else if ltb 0 (bonus_of dto) && ltb (purchase_of dto) 60
    then some no_purchase
    else none

abbrev pub base_description : TopupDto → ℕ → Description
base_description dto operator_id = elim dto.description [
  | some d ↦ given d
  | none ↦ topup_of dto.seconds operator_id
]

abbrev pub purchase_row : TopupDto → ℕ → ℕ → Transaction
purchase_row dto operator_id id = record {
  id = id;
  user_id = some dto.user_id;
  type = purchase;
  amount_tenge = dto.amount_tenge;
  equivalent_seconds = pos (purchase_of dto);
  venue_id = dto.venue_id;
  description = base_description dto operator_id;
}

abbrev pub bonus_row : TopupDto → ℕ → ℕ → Transaction
bonus_row dto operator_id id = record {
  id = id;
  user_id = some dto.user_id;
  type = bonus_grant;
  amount_tenge = 0;
  equivalent_seconds = pos (bonus_of dto);
  venue_id = dto.venue_id;
  description = bonus_part (bonus_of dto / 60) (base_description dto operator_id);
}

-- The rows of one sale: the purchase, and the bonus if there is one.
unfoldable pub topup_rows : TopupDto → ℕ → ℕ → List Transaction
topup_rows dto operator_id id =
    purchase_row dto operator_id id
    ∷ (if ltb 0 (bonus_of dto) then bonus_row dto operator_id (id + 1) ∷ [] else [])

-- The description of the purchase, as the ledger's texts have it.
abbrev ledger_text : TopupDto → ℕ → Reason
ledger_text dto operator_id = elim dto.description [
  | some d ↦ text d
  | none ↦ topped_up dto.seconds operator_id
]

abbrev pub credit_input : TopupDto → ℕ → LoyaltyTier → ℕ → TopupInput
credit_input dto operator_id tier transaction_id = record {
  user_id = dto.user_id;
  paid_seconds = purchase_of dto;
  bonus_seconds = bonus_of dto;
  tier = tier;
  operator_id = operator_id;
  transaction_id = transaction_id;
  idempotency_key = none;
  description = ledger_text dto operator_id;
}

-- An exception of the ledger would leave the rows of the sale where they are.
pub data TopupAnswer : Type 0 where
  credited : ToppedUp → ℕ → TopupAnswer
  refused : TillError → TopupAnswer
  refused_by_ledger : Error → TopupAnswer

abbrev pub recorded : TopupDto → ℕ → Till → Till
recorded dto operator_id till = record till {
  ledger = lock_balance dto.user_id till.ledger;
  transactions = till.transactions ++ topup_rows dto operator_id till.next_id;
  next_id = till.next_id + 2;
}

abbrev pub answer_of : ℕ → Till → Result ToppedUp × Db → TopupAnswer × Till
answer_of id till (ok t, db) = (credited t id, record till { ledger = db })
answer_of id till (err e, db) = (refused_by_ledger e, record till { ledger = db })

unfoldable pub topup_body : TopupDto → ℕ → LoyaltyTier → Date → Till → TopupAnswer × Till
topup_body dto operator_id tier now till =
    let r = recorded dto operator_id till in
    answer_of till.next_id r
      (credit_topup (credit_input dto operator_id tier till.next_id) now r.ledger)

abbrev pub topup_checked :
    TopupDto → ℕ → LoyaltyTier → Date → Till → Option TillError → TopupAnswer × Till
topup_checked dto operator_id tier now till (some e) = (refused e, till)
topup_checked dto operator_id tier now till none = topup_body dto operator_id tier now till

abbrev pub topup_of_user :
    TopupDto → ℕ → Date → Till → Option User → Option Profile → TopupAnswer × Till
topup_of_user dto operator_id now till (some u) (some p) =
    topup_checked dto operator_id p.loyalty_status now till (topup_check dto u now till)
topup_of_user dto operator_id now till _ _ = (refused no_user, till)

-- A user's row is split over two tables of the model, which both have it.
unfoldable pub topup : TopupDto → ℕ → Date → Till → TopupAnswer × Till
topup dto operator_id now till =
    topup_of_user dto operator_id now till (find (λ u. u.id == dto.user_id) till.ledger.users)
      (profile_of dto.user_id till.profiles)

pub record GuestSale : Type 0 where
  pub venue_id : ℕ
  pub room_id : Option ℕ
  pub amount_tenge : ℕ
  pub minutes : ℕ
  pub payment_method : String
  pub package_name : Option String
  pub comment : Option String

abbrev pub room_fits : Option ℕ → ℕ → List RoomOf → Bool
room_fits none venue_id rooms = true
room_fits (some room_id) venue_id rooms = any (λ r. r.id == room_id && r.venue_id == venue_id) rooms

-- Texts are as they come: trimming and cutting them is left out.
abbrev pub guest_row : GuestSale → ℕ → Transaction
guest_row dto id = record {
  id = id;
  user_id = none;
  type = purchase;
  amount_tenge = dto.amount_tenge;
  equivalent_seconds = pos (dto.minutes * 60);
  venue_id = some dto.venue_id;
  description =
      guest_sale_of dto.payment_method dto.package_name dto.minutes (or_else dto.comment "Гость");
}

pub data TillAnswer : Type 0 where
  sold : ℕ → TillAnswer
  not_sold : TillError → TillAnswer

-- A sale to a guest: revenue, and no minutes.
unfoldable pub guest_sale : GuestSale → Till → TillAnswer × Till
guest_sale dto till =
    if not (contains dto.venue_id till.venues)
    then (not_sold no_venue, till)
    else if not (room_fits dto.room_id dto.venue_id till.rooms)
    then (not_sold other_venue, till)
    else if lacks_shift (some dto.venue_id) till
    then (not_sold no_shift, till)
    else (
      sold till.next_id,
      record till {
        transactions = till.transactions ++ guest_row dto till.next_id ∷ [];
        next_id = till.next_id + 1;
      },
    )

abbrev pub deduct_row : ℕ → ℕ → String → ℕ → Transaction
deduct_row user_id seconds description id = record {
  id = id;
  user_id = some user_id;
  type = game_debit;
  amount_tenge = 0;
  equivalent_seconds = pos 0 -ℤ pos seconds;
  venue_id = none;
  description = balance_debit description;
}

-- It lowers the cached balance alone.
abbrev pub deduct_from : ℕ → ℕ → String → Till → Option Balance → TillAnswer × Till
deduct_from user_id seconds description till none = (not_sold low_balance, till)
deduct_from user_id seconds description till (some b) =
    if ltb b.available_seconds seconds then (not_sold low_balance, till) else (
      sold (b.available_seconds - seconds),
      record till {
        ledger = record till.ledger {
          balances =
              upsert_balance user_id
                (λ c. record c { available_seconds = c.available_seconds - seconds }) 0
                till.ledger.balances;
        };
        transactions =
            till.transactions ++ deduct_row user_id seconds description till.next_id ∷ [];
        next_id = till.next_id + 1;
      },
    )

unfoldable pub deduct : ℕ → ℕ → String → Till → TillAnswer × Till
deduct user_id seconds description till =
    deduct_from user_id seconds description till (balance_of user_id till.ledger.balances)
