-- ===== src/Ops/Certificates/Laws.antt =====
-- `activateCertificate` of backend/src/ops/ops.service.ts, also after the sale's cancellation in
-- backend/src/cash/cash.service.ts.
use oyna.Base.{
  ℕ, ◌≡◌, refl, subst, inl, inr, Bool, true, false, Option-cases, ◌||◌, Option, none, some, String,
  All, ltb, ◌==◌, ==→eq, eq→==, if◌then◌else◌,
}
use oyna.Base.Find.{find_test, All-find, find-update_other}
use oyna.Rules.Calendar.{Date}
use oyna.Ledger.State.{Db, Result, ok, err}
use oyna.Ledger.Service.{Credited}
use oyna.Loyalty.State.{Profile, profile_of}
use oyna.Cash.State.{
  Role, Sale, CertificateStatus, sold, activated, expired, GiftCertificate, CashDb,
}
use oyna.Cash.Tables.{sale_by_id}
use oyna.Cash.Returns.{cancel_sale}
use oyna.Cash.Returns.Laws.{
  is_usable_of, Cancelling, not_cancelled, cancelled_as, cancel_sale-Cancelling,
}
use oyna.Cash.Invariant.{IsDesk}
use oyna.Ops.State.{already_activated, activation_over, done, failed}
use oyna.Ops.Certificates.{
  is_activated, is_over, certificate_by_code, run_out, used_by, update_certificate, after_credit,
  activate_for, activate_of, activate_certificate,
}

-- Which certificate a successful activation leaves under the code.
credited_row :
    (code : ℕ) (c : GiftCertificate) (user_id : ℕ) (now : Date) (db : CashDb)
    (x : Result Credited × Db) (r : GiftCertificate)
    → certificate_by_code code db ≡ some c
    → (after_credit c user_id now db x).0 ≡ done r
    → certificate_by_code code (after_credit c user_id now db x).1 ≡ some (used_by user_id now c)
credited_row code c user_id now db (err e, d) r found h = cc
credited_row code c user_id now db (ok a, d) r found h =
    find-update_other (λ k. k.code == code) (λ k. k.id == c.id) (used_by user_id now)
      db.certificates c (λ k. refl) (eq→== c.id c.id refl) found

activate_row :
    (code : ℕ) (c : GiftCertificate) (user_id actor_id : ℕ) (now : Date) (db : CashDb)
    (r : GiftCertificate)
    → certificate_by_code code db ≡ some c
    → (activate_of c user_id actor_id now db).0 ≡ done r
    → certificate_by_code code (activate_of c user_id actor_id now db).1
      ≡ some (used_by user_id now c)
unfolding activate_of
activate_row code c user_id actor_id now db r found h =
    go (is_activated c.status) (ltb c.activate_by now || is_over c.status)
      (profile_of user_id db.club.profiles) h
  where
    go :
        (a b : Bool) (p : Option Profile)
        → (if a
            then (failed already_activated, db)
            else if b
            then (failed activation_over, update_certificate c.id run_out db)
            else activate_for c user_id actor_id now db p).0
          ≡ done r
        → certificate_by_code code
            (if a
              then (failed already_activated, db)
              else if b
              then (failed activation_over, update_certificate c.id run_out db)
              else activate_for c user_id actor_id now db p).1
          ≡ some (used_by user_id now c)
    go true b p h = cc
    go false true p h = cc
    go false false none h = cc
    go false false (some p) h = credited_row code c user_id now db _ r found h

activated_refused :
    (code : ℕ) (c : GiftCertificate) (user_id actor_id : ℕ) (now : Date) (db : CashDb)
    → certificate_by_code code db ≡ some c
    → is_activated c.status ≡ true
    → activate_certificate code user_id actor_id now db ≡ (failed already_activated, db)
unfolding activate_certificate activate_of
activated_refused code c user_id actor_id now db found used =
    rw (found, activate_certificate, activate_of, used) refl

-- A certificate is used once: after an activation that went through, every later one with its code, for any
-- player, is refused and writes nothing.
pub activate_certificate_once :
    (code user_id actor_id : ℕ) (now : Date) (db : CashDb) (r : GiftCertificate)
    (user_id' actor_id' : ℕ) (now' : Date)
    → (activate_certificate code user_id actor_id now db).0 ≡ done r
    → let after = (activate_certificate code user_id actor_id now db).1 in
      activate_certificate code user_id' actor_id' now' after ≡ (failed already_activated, after)
unfolding activate_certificate
activate_certificate_once code user_id actor_id now db r user_id' actor_id' now' h =
    elim (Option-cases (certificate_by_code code db)) [
      | inl missing ↦ cc (rw (missing, activate_certificate) at h)
      | inr (c, found) ↦
          let h' = rw (found, activate_certificate) at h in
          activated_refused code (used_by user_id now c) user_id' actor_id' now' _
            (rw (found, activate_certificate)
              (activate_row code c user_id actor_id now db r found h'))
            refl
    ]

expired_refused :
    (code : ℕ) (c : GiftCertificate) (user_id actor_id : ℕ) (now : Date) (db : CashDb)
    → certificate_by_code code db ≡ some c
    → is_over c.status ≡ true
    → is_activated c.status ≡ false
    → ((activate_certificate code user_id actor_id now db).0 ≡ failed activation_over)
      × ((activate_certificate code user_id actor_id now db).1.club ≡ db.club)
unfolding activate_certificate activate_of
expired_refused code c user_id actor_id now db found over unused =
    rw (found, activate_certificate, activate_of, unused, over) (go (ltb c.activate_by now))
  where
    go :
        (b : Bool)
        → ((if b || true
              then (failed activation_over, update_certificate c.id run_out db)
              else activate_for c user_id actor_id now db (profile_of user_id db.club.profiles)).0
            ≡ failed activation_over)
          × ((if b || true
                then (failed activation_over, update_certificate c.id run_out db)
                else activate_for c user_id actor_id now db
                    (profile_of user_id db.club.profiles)).1.club
              ≡ db.club)
    go true = (refl, refl)
    go false = (refl, refl)

no_use :
    (sale : Sale) (db : CashDb) (x : oyna.Cash.Tables.Outcome Sale × CashDb) (r : Sale)
    → Cancelling sale db x
    → x.0 ≡ oyna.Cash.Tables.done r
    → All (λ c. is_usable_of sale.id c ≡ false) x.1.certificates
no_use sale db x r (not_cancelled e) h = cc
no_use sale db x r (cancelled_as s after k) h = k.no_certificate

unusable_status :
    (sale_id : ℕ) (c : GiftCertificate)
    → c.sale_id ≡ some sale_id
    → is_usable_of sale_id c ≡ false
    → (is_over c.status ≡ true) × (is_activated c.status ≡ false)
unusable_status sale_id c own h = of_status c.status (rw own at h)
  where
    of_status :
        (s : CertificateStatus)
        → is_usable_of sale_id (record c { status = s; sale_id = some sale_id }) ≡ false
        → (is_over s ≡ true) × (is_activated s ≡ false)
    of_status sold h = cc (rw (eq→== sale_id sale_id refl) at h)
    of_status activated h = cc (rw (eq→== sale_id sale_id refl) at h)
    of_status expired h = (refl, refl)

-- What was sold with a cancelled sale is worth nothing: where the tables are well-formed and a sale's
-- cancellation went through, activating any certificate of the sale is refused next, for any player and
-- whatever the time, and credits nobody.
pub cancelled_certificate_refused :
    (sale_id : ℕ) (reason : String) (canceller : ℕ) (role : Role) (now : Date) (db : CashDb)
    (r : Sale) (code : ℕ) (c : GiftCertificate) (user_id actor_id : ℕ) (later : Date)
    → IsDesk db
    → (cancel_sale sale_id reason canceller role now db).0 ≡ oyna.Cash.Tables.done r
    → certificate_by_code code (cancel_sale sale_id reason canceller role now db).1 ≡ some c
    → c.sale_id ≡ some sale_id
    → let after = (cancel_sale sale_id reason canceller role now db).1 in
      ((activate_certificate code user_id actor_id later after).0 ≡ failed activation_over)
      × ((activate_certificate code user_id actor_id later after).1.club ≡ after.club)
unfolding cancel_sale
cancelled_certificate_refused sale_id reason canceller role now db r code c user_id actor_id later
      desk h found own =
    let after = (cancel_sale sale_id reason canceller role now db).1 in
    elim (Option-cases (sale_by_id sale_id db)) [
      | inl missing ↦ cc (rw (missing, cancel_sale) at h)
      | inr (sale, e) ↦
          let same = ==→eq _ _ (find_test (λ s. s.id == sale_id) db.sales sale e) in
          let none_left =
            no_use sale db _ r
              (cancel_sale-Cancelling sale_id reason canceller role now db sale desk e) h in
          let mine =
            subst (λ (i : ℕ). is_usable_of i c ≡ false) same
              (All-find (λ k. k.code == code) (λ k. is_usable_of sale.id k ≡ false)
                after.certificates c found none_left) in
          let (over, unused) = unusable_status sale_id c own mine in
          expired_refused code c user_id actor_id later after found over unused
    ]
