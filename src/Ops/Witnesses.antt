-- ===== src/Ops/Witnesses.antt =====
-- The theorems on backend/src/ops/ops.service.ts at the sample desk.
use oyna.Base.{
  ℕ, ◌+◌, ◌-◌, ◌*◌, ◌≤◌, ◌≡◌, refl, true, false, none, some, [], ◌∷◌, ◌==◌, find, length, arith,
}
use oyna.Rules.Tier.{bronze}
use oyna.Ledger.Sample.{noon, tables-IsLedger}
use oyna.Ledger.Service.{credit}
use oyna.Loyalty.State.{Profile}
use oyna.Sessions.State.{GameSession, completed}
use oyna.Cash.State.{
  operator, admin, named, Sale, GiftCertificate, CertificateStatus, sold, birthday_person, player,
  Participant, CashDb,
}
use oyna.Cash.Returns.{cancelled_tables, cancel_of, cancel_sale}
use oyna.Cash.Invariant.{IsDesk}
use oyna.Cash.Sample.{desk, desk-IsDesk, party}
use oyna.Ops.Compensation.{game_failure}
use oyna.Ops.Blocks.{BlockInput, block_user, unblock_user, delete_player}
use oyna.Ops.Blocks.Laws.{IsFreed, block-unblock_user}
use oyna.Ops.Blocks.Deleting.{IsGone, delete_player-IsGone}
use oyna.Ops.State.{OpsDb, ledger_of, already_activated, activation_over, Outcome, done, failed}
use oyna.Ops.Certificates.{activate_of, activate_certificate}
use oyna.Ops.Certificates.Laws.{activate_certificate_once, cancelled_certificate_refused}
use oyna.Ops.Compensating.{CompensateInput, compensate_session}
use oyna.Ops.Compensating.Laws.{Compensated, compensate_session-Compensated}
use oyna.Ops.Participants.{ParticipantInput, add_participant, remove_participant}
use oyna.Ops.Packages.{credit_booking}
use oyna.Ops.Packages.Laws.{Crediting, credit_booking-Crediting}
use oyna.Ops.Participants.Listing.{rows_of_user, IsListed, participants-IsListed}

abbrev aza : Profile
aza = record {
  id = 7;
  nickname = "aza";
  birth_date = none;
  loyalty_status = bronze;
  legend_invite = false;
  referred_by_id = none;
  is_player = true;
  deleted_at = none;
  total_score = 0;
}

-- A certificate of the sample's sale.
abbrev gift : GiftCertificate
gift = record {
  id = 8;
  venue_id = 1;
  code = 1234;
  title = named "Сертификат 60 мин";
  minutes = 60;
  price_tenge = 5000;
  sale_id = some 0;
  status = sold;
  activate_by = noon + 90 * 86400000;
  activated_at = none;
  activated_for = none;
  created_by_id = 5;
}

abbrev child : Participant
child = record {
  id = 6;
  booking_id = 3;
  user_id = some 7;
  is_guest = false;
  role = birthday_person;
  credited_at = none;
}

abbrev till : CashDb
till = record desk {
  certificates = gift ∷ [];
  participants = child ∷ [];
  club = record desk.club { profiles = aza ∷ [] };
}

till-IsDesk : IsDesk till
till-IsDesk = record {
  books = tables-IsLedger;
  one_open = desk-IsDesk.one_open;
  sales = desk-IsDesk.sales;
}

abbrev used : Outcome GiftCertificate × CashDb
used = activate_certificate 1234 7 5 noon till

used_done : (c : GiftCertificate) × (used.0 ≡ done c)
unfolding activate_certificate activate_of credit
used_done = (_, refl)

activate_certificate_once_example :
    activate_certificate 1234 8 5 noon used.1 ≡ (failed already_activated, used.1)
activate_certificate_once_example =
    activate_certificate_once 1234 7 5 noon till used_done.0 8 5 noon used_done.1

abbrev undone : oyna.Cash.Tables.Outcome Sale × CashDb
undone = cancel_sale 0 "ошибка" 5 operator noon till

undone_done : (s : Sale) × (undone.0 ≡ oyna.Cash.Tables.done s)
unfolding cancel_sale cancel_of
undone_done = (_, refl)

abbrev voided : GiftCertificate
voided = record gift { status = CertificateStatus.expired }

voided_found : find (λ (c : GiftCertificate). c.code == 1234) undone.1.certificates ≡ some voided
unfolding cancel_sale cancel_of cancelled_tables
voided_found = refl

cancelled_certificate_refused_example :
    ((activate_certificate 1234 7 5 noon undone.1).0 ≡ failed activation_over)
    × ((activate_certificate 1234 7 5 noon undone.1).1.club ≡ undone.1.club)
cancelled_certificate_refused_example =
    cancelled_certificate_refused 0 "ошибка" 5 operator noon till undone_done.0 1234 voided 7 5 noon
      till-IsDesk undone_done.1 voided_found refl

abbrev broken : GameSession
broken = record {
  id = 40;
  room_id = 1;
  mode_id = 2;
  venue_id = 1;
  session_token = 41;
  engine_session_id = none;
  start_time = some noon;
  end_time = some (noon + 60000);
  paused_at = none;
  deducted_seconds = 600;
  balance_debited_at = some noon;
  paid_seconds_debited = 600;
  bonus_seconds_debited = 0;
  counts_for_rating = true;
  is_tournament = false;
  status = completed;
  created_at = noon;
  players = 7 ∷ [];
}

abbrev ops : OpsDb
ops = record {
  till = till;
  sessions = broken ∷ [];
  compensated = [];
  compensations = [];
  block_starts = [];
  next_id = 50;
}

abbrev apology : CompensateInput
apology = record {
  session_id = 40;
  user_ids = 7 ∷ [];
  minutes = some 10;
  reason = game_failure;
  has_comment = false;
  actor_id = 5;
  role = operator;
}

compensate_session-Compensated_example :
    Compensated apology broken ops (compensate_session apology noon ops)
compensate_session-Compensated_example =
    compensate_session-Compensated apology noon ops broken tables-IsLedger (λ u. refl) refl

credit_booking-Crediting_example : Crediting party admin till (credit_booking 3 9 admin noon till)
credit_booking-Crediting_example =
    credit_booking-Crediting 3 9 admin noon till party tables-IsLedger refl

abbrev friend : ParticipantInput
friend = record { user_id = some 8; is_guest = false; role = player }

till-IsListed : IsListed till.participants
till-IsListed = record {
  users = λ b u. one b u;
  persons = λ b. ground arith;
  organizers = λ b. ground arith;
}
  where
    one : (b u : ℕ) → length (rows_of_user b u till.participants) ≤ 1
    one b u = ground arith

participants-IsListed_example :
    IsListed (add_participant 3 friend till).1.participants
    × IsListed (remove_participant 3 6 till).1.participants
participants-IsListed_example = participants-IsListed 3 6 friend till till-IsListed

abbrev week : BlockInput
week = record { user_id = 7; until = some (noon + 604800000); permanent = false }

block-unblock_user_example :
    IsFreed 7
      (noon + 3600000 - noon)
      (noon + 3600000)
      ops
      (unblock_user 7 (noon + 3600000) (block_user week noon ops).1).1
block-unblock_user_example =
    block-unblock_user week noon (noon + 3600000) ops oyna.Ledger.Sample.player tables-IsLedger refl

delete_player-IsGone_example : IsGone 7 (ledger_of ops) (ledger_of (delete_player 7 noon ops).1)
delete_player-IsGone_example = delete_player-IsGone 7 noon ops oyna.Ledger.Sample.player refl refl
