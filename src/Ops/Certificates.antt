-- ===== src/Ops/Certificates.antt =====
-- The certificates of backend/src/ops/ops.service.ts: `issueCertificate` and `activateCertificate`.
pub mod Laws
use oyna.Base.{
  ℕ, ◌+◌, ◌*◌, ◌%◌, Bool, true, false, ◌||◌, not, Option, none, some, [], ◌∷◌, ◌++◌, String, ltb,
  ◌==◌, if◌then◌else◌, find, update_where,
}
use oyna.Rules.Calendar.{Date, add_days}
use oyna.Rules.Spend.{paid}
use oyna.Rules.Tier.{LoyaltyTier}
use oyna.Ledger.State.{Key, certificate_code, Db, Result, ok, err}
use oyna.Ledger.Ops.{CreditInput, by_kind}
use oyna.Ledger.Service.{Credited, credit}
use oyna.Loyalty.State.{Profile, profile_of}
use oyna.Cash.State.{CertificateStatus, sold, activated, expired, GiftCertificate, named, CashDb}
use oyna.Cash.Selling.{set_ledger}
use oyna.Ops.State.{
  nominal_tens, no_certificate, already_activated, activation_over, no_user, ledger_error, Outcome,
  done, failed,
}

pub record CertificateInput : Type 0 where
  pub venue_id : ℕ
  pub title : String
  pub minutes : ℕ
  pub price_tenge : ℕ
  pub sale_id : Option ℕ
  pub actor_id : ℕ

unfoldable pub issue_certificate :
    CertificateInput → ℕ → Date → CashDb → Outcome GiftCertificate × CashDb
issue_certificate input code now db =
    let c : GiftCertificate = record {
      id = db.next_id;
      venue_id = input.venue_id;
      code = code;
      title = named input.title;
      minutes = input.minutes;
      price_tenge = input.price_tenge;
      sale_id = input.sale_id;
      status = sold;
      activate_by = add_days now 90;
      activated_at = none;
      activated_for = none;
      created_by_id = input.actor_id;
    } in
    if not (input.minutes % 10 == 0)
    then (failed nominal_tens, db)
    else (done c, record db { certificates = db.certificates ++ c ∷ []; next_id = db.next_id + 1 })

abbrev pub is_activated : CertificateStatus → Bool
is_activated activated = true
is_activated _ = false

abbrev pub is_over : CertificateStatus → Bool
is_over expired = true
is_over _ = false

abbrev pub certificate_by_code : ℕ → CashDb → Option GiftCertificate
certificate_by_code code db = find (λ c. c.code == code) db.certificates

abbrev pub update_certificate : ℕ → (GiftCertificate → GiftCertificate) → CashDb → CashDb
update_certificate id f db = record db {
  certificates = update_where (λ c. c.id == id) f db.certificates;
}

abbrev pub run_out : GiftCertificate → GiftCertificate
run_out c = record c { status = expired }

abbrev pub used_by : ℕ → Date → GiftCertificate → GiftCertificate
used_by user_id now c = record c {
  status = activated;
  activated_at = some now;
  activated_for = some user_id;
}

abbrev pub certificate_input : GiftCertificate → ℕ → ℕ → LoyaltyTier → CreditInput
certificate_input c user_id actor_id tier = record {
  user_id = user_id;
  seconds = c.minutes * 60;
  kind = paid;
  source = "certificate";
  reason = certificate_code c.code;
  idempotency_key = some (Key.certificate c.id);
  created_by_id = some actor_id;
  transaction_id = none;
  session_id = none;
  tier = some tier;
  expires_at = by_kind;
}

abbrev pub after_credit :
    GiftCertificate → ℕ → Date → CashDb → Result Credited × Db → Outcome GiftCertificate × CashDb
after_credit c user_id now db (err e, d) = (failed (ledger_error e), set_ledger d db)
after_credit c user_id now db (ok r, d) =
    (done (used_by user_id now c), update_certificate c.id (used_by user_id now) (set_ledger d db))

abbrev pub activate_for :
    GiftCertificate → ℕ → ℕ → Date → CashDb → Option Profile → Outcome GiftCertificate × CashDb
activate_for c user_id actor_id now db none = (failed no_user, db)
activate_for c user_id actor_id now db (some p) =
    after_credit c user_id now db
      (credit (certificate_input c user_id actor_id p.loyalty_status) now db.club.ledger)

unfoldable pub activate_of :
    GiftCertificate → ℕ → ℕ → Date → CashDb → Outcome GiftCertificate × CashDb
activate_of c user_id actor_id now db =
    if is_activated c.status
    then (failed already_activated, db)
    else if ltb c.activate_by now || is_over c.status
    then (failed activation_over, update_certificate c.id run_out db)
    else activate_for c user_id actor_id now db (profile_of user_id db.club.profiles)

-- The code is compared as it was written, trimmed and in capitals.
unfoldable pub activate_certificate : ℕ → ℕ → ℕ → Date → CashDb → Outcome GiftCertificate × CashDb
activate_certificate code user_id actor_id now db = elim (certificate_by_code code db) [
  | none ↦ (failed no_certificate, db)
  | some c ↦ activate_of c user_id actor_id now db
]
