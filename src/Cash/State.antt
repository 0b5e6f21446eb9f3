-- ===== src/Cash/State.antt =====
-- The tables that backend/src/cash/cash.service.ts reads and writes, beside those of the ledger and of the
-- loyalty service. A text that is missing, or empty after `trim()`, is none.
use oyna.Base.{ℕ, Bool, Option, List, String}
use oyna.Base.Int.{ℤ}
use oyna.Rules.Calendar.{Date}
use oyna.Loyalty.State.{Club}

pub data Role : Type 0 where
  user operator manager admin crm_extra : Role

pub data PayMethod : Type 0 where
  cash kaspi halyk freedom : PayMethod

pub data ShiftStatus : Type 0 where
  open_shift closed_shift : ShiftStatus

pub record CashShift : Type 0 where
  pub id : ℕ
  pub venue_id : ℕ
  pub number : ℕ
  pub opened_by_id : ℕ
  pub closed_by_id : Option ℕ
  pub status : ShiftStatus
  pub opening_cash : ℕ
  pub previous_close_cash : Option ℕ
  pub opening_note : Option String
  pub closing_cash_actual : Option ℕ
  pub closing_kaspi : Option ℕ
  pub closing_halyk : Option ℕ
  pub closing_freedom : Option ℕ
  pub close_comment : Option String
  pub opened_at : Date
  pub closed_at : Option Date

pub data SaleStatus : Type 0 where
  completed cancelled : SaleStatus

pub data LineKind : Type 0 where
  item certificate booking : LineKind

pub data Category : Type 0 where
  games packages promo water other certificate_item barter booking_line : Category

-- The name of a line: as given, or by its variable parts.
pub data LineName : Type 0 where
  named : String → LineName
  certificate_of : ℕ → LineName
  booking_of : Bool → String → LineName

pub record SaleLine : Type 0 where
  pub kind : LineKind
  pub item_id : Option ℕ
  pub booking_id : Option ℕ
  pub name : LineName
  pub qty : ℕ
  pub price_tenge : ℕ
  pub minutes : ℕ
  pub category : Category

pub record SalePayment : Type 0 where
  pub method : PayMethod
  pub amount_tenge : ℕ
  pub cash_received : Option ℕ
  pub change_tenge : Option ℕ

pub record Sale : Type 0 where
  pub id : ℕ
  pub number : ℕ
  pub venue_id : ℕ
  pub shift_id : ℕ
  pub operator_id : ℕ
  pub user_ids : List ℕ
  pub is_guest : Bool
  pub booking_id : Option ℕ
  pub total_tenge : ℕ
  pub minutes_credited : ℕ
  pub bonus_minutes : ℕ
  pub status : SaleStatus
  pub receipt_checked : Bool
  pub receipt_number : Option String
  pub comment : Option String
  pub entered_after_outage : Bool
  pub is_barter : Bool
  pub refund_tenge : ℕ
  pub refund_reason : Option String
  pub refunded_by_id : Option ℕ
  pub refunded_at : Option Date
  pub cancel_reason : Option String
  pub cancelled_by_id : Option ℕ
  pub cancelled_at : Option Date
  pub transaction_id : Option ℕ
  pub created_at : Date
  pub lines : List SaleLine
  pub payments : List SalePayment

pub data CashMoveType : Type 0 where
  move_in move_out move_expense : CashMoveType

pub data MoveComment : Type 0 where
  noted : String → MoveComment
  refund_of : ℕ → String → MoveComment

pub record CashMovement : Type 0 where
  pub id : ℕ
  pub shift_id : ℕ
  pub type : CashMoveType
  pub amount : ℕ
  pub article : Option String
  pub comment : MoveComment
  pub operator_id : ℕ
  pub expense_id : Option ℕ

-- The comment names the shift's number.
pub record Expense : Type 0 where
  pub id : ℕ
  pub venue_id : ℕ
  pub occurred_on : Date
  pub amount_tenge : ℕ
  pub article : String
  pub shift_number : ℕ
  pub comment : String
  pub shift_id : Option ℕ
  pub created_by_id : ℕ

pub record CatalogItem : Type 0 where
  pub id : ℕ
  pub venue_id : Option ℕ
  pub name : String
  pub category : Category
  pub price_tenge : ℕ
  pub price_weekend_tenge : Option ℕ
  pub minutes : Option ℕ
  pub active : Bool
  pub track_stock : Bool
  pub stock_qty : ℤ

-- The quantity is taken out of the stock.
pub record StockMove : Type 0 where
  pub item_id : ℕ
  pub taken_qty : ℕ
  pub shift_id : ℕ
  pub operator_id : ℕ

pub data CertificateStatus : Type 0 where
  sold activated expired : CertificateStatus

pub record GiftCertificate : Type 0 where
  pub id : ℕ
  pub venue_id : ℕ
  pub code : ℕ
  pub title : LineName
  pub minutes : ℕ
  pub price_tenge : ℕ
  pub sale_id : Option ℕ
  pub status : CertificateStatus
  pub activate_by : Date
  pub activated_at : Option Date
  pub activated_for : Option ℕ
  pub created_by_id : ℕ

pub data BookingStatus : Type 0 where
  new_booking confirmed arrived completed_booking cancelled_booking no_show : BookingStatus

pub data BookingType : Type 0 where
  birthday teambuilding : BookingType

pub data ParticipantRole : Type 0 where
  birthday_person organizer player : ParticipantRole

pub record Participant : Type 0 where
  pub id : ℕ
  pub booking_id : ℕ
  pub user_id : Option ℕ
  pub is_guest : Bool
  pub role : ParticipantRole
  pub credited_at : Option Date

pub record Booking : Type 0 where
  pub id : ℕ
  pub venue_id : ℕ
  pub type : BookingType
  pub starts_at : Date
  pub contact_name : String
  pub package_name : String
  pub package_minutes : ℕ
  pub price_locked : ℕ
  pub people : ℕ
  pub amount_tenge : ℕ
  pub prepay_tenge : ℕ
  pub paid_tenge : ℕ
  pub brought_by_id : ℕ
  pub status : BookingStatus

-- The row `PURCHASE` of a sale.
pub record Purchase : Type 0 where
  pub id : ℕ
  pub user_id : Option ℕ
  pub amount_tenge : ℕ
  pub equivalent_seconds : ℕ
  pub venue_id : ℕ

pub record StaffShift : Type 0 where
  pub id : ℕ
  pub venue_id : ℕ
  pub user_id : ℕ
  pub starts_at : Date
  pub ends_at : Date
  pub arrived_at : Option Date
  pub left_at : Option Date

pub record CashDb : Type 0 where
  pub club : Club
  pub shifts : List CashShift
  pub sales : List Sale
  pub movements : List CashMovement
  pub expenses : List Expense
  pub items : List CatalogItem
  pub stock_moves : List StockMove
  pub certificates : List GiftCertificate
  pub bookings : List Booking
  pub participants : List Participant
  pub purchases : List Purchase
  pub schedule : List StaffShift
  pub next_id : ℕ
