-- ===== src/Ops/Compensating/Laws.antt =====
-- `compensateSession` of backend/src/ops/ops.service.ts: what it lets through, and that it does not stop half-way.
use oyna.Base.{
  ℕ, ◌+◌, ◌%◌, ◌≤◌, ◌≡◌, refl, sym, subst, inl, inr, ◌⊎◌, All, map, unique, true, contains, Option,
  none, some, List, [], ◌∷◌, ◌++◌, ◌==◌, eq→==, find, arith,
}
use oyna.Rules.Calendar.{Date}
use oyna.Ledger.State.{Key, Db, Result, ok}
use oyna.Ledger.Ops.{has_key}
use oyna.Ledger.Service.{Credited, credit}
use oyna.Ledger.Invariant.{IsLedger}
use oyna.Loyalty.Keeping.{credit-IsLedger}
use oyna.Loyalty.State.{Profile}
use oyna.Sessions.State.{GameSession}
use oyna.Ops.Compensation.{
  CompensationReason, game_failure, equipment_failure, other, inherited, unknown, is_known,
  is_listed, Refusal, validate_compensation, IsAllowed, validate_compensation_sound,
}
use oyna.Ops.State.{
  SessionCompensation, OpsDb, OpsError, Outcome, done, failed, ledger_of, with_ledger,
}
use oyna.Ops.Compensating.Gifts.{HasGift, credit_taken, gift_each-gifts}
use oyna.Ops.Compensating.{
  users_in, CompensateInput, to_rules, minutes_or_0, compensation_row, gift_input, then_gift,
  gift_each, mark_session, compensate_with, compensate_checked, compensate_session,
}

abbrev profile_id : Profile → ℕ
profile_id p = p.id

abbrev IsGiven : List Profile → Outcome (List ℕ) × Db → Type 0
IsGiven users r = (r.0 ≡ done (map profile_id users)) × IsLedger r.1

then_gift-IsGiven :
    (p : Profile) (ps : List Profile) (x : Result Credited × Db) (c : Credited)
    (rest : Outcome (List ℕ) × Db)
    → x.0 ≡ ok c
    → IsGiven ps rest
    → IsGiven (p ∷ ps) (then_gift p.id x rest)
then_gift-IsGiven p ps (ok a, d) c (done us, d') e (f, l) = (listed f, l)
  where
    listed : done us ≡ done (map profile_id ps) → done (p.id ∷ us) ≡ done (p.id ∷ map profile_id ps)
    listed f = cc
then_gift-IsGiven p ps (ok a, d) c (failed x, d') e (f, l) = cc
then_gift-IsGiven p ps (oyna.Ledger.State.err x, d) c rest e g = cc

gift_each-IsGiven :
    (row : SessionCompensation) (now : Date) (users : List Profile) (db : Db)
    → 1 ≤ row.minutes
    → row.minutes % 10 ≡ 0
    → IsLedger db
    → IsGiven users (gift_each row now users db)
unfolding gift_each
gift_each-IsGiven row now [] db some_minutes tens l = (refl, l)
gift_each-IsGiven row now (u ∷ us) db some_minutes tens l =
    let (c, e) =
      credit_taken (gift_input row u) now db (omega (arith, some_minutes)) (omega (arith, tens)) in
    then_gift-IsGiven u us (credit (gift_input row u) now db) c _ e (
      gift_each-IsGiven row now us (credit (gift_input row u) now db).1 some_minutes tens
        (credit-IsLedger (gift_input row u) now db l))

-- No grant has a key of the compensation that comes next.
abbrev pub IsNewKey : OpsDb → Type 0
IsNewKey db =
    (user_id : ℕ)
    → find (has_key (Key.compensation db.next_id user_id)) (ledger_of db).grants ≡ none

known_reason : (r : CompensationReason) → is_known r ≡ true → (is_listed r ≡ true) ⊎ (r ≡ inherited)
known_reason game_failure h = inl refl
known_reason equipment_failure h = inl refl
known_reason other h = inl refl
known_reason inherited h = inr refl
known_reason unknown h = cc

-- A compensation that went through: the rules allow it, it is noted, the session counts as compensated, and
-- the books balance.
pub record IsCompensated (input : CompensateInput) (session : GameSession) (db after : OpsDb)
    : Type 0 where
  pub allowed : IsAllowed (to_rules input session db)
  pub books : IsLedger (ledger_of after)
  pub noted :
      after.compensations ≡ db.compensations ++ compensation_row input session db.next_id ∷ []
  pub reason : (is_listed input.reason ≡ true) ⊎ (input.reason ≡ inherited)
  pub credited :
      All
        (HasGift (compensation_row input session db.next_id) (ledger_of after).grants)
        (users_in (unique input.user_ids) db.till.club.profiles)
  pub marked : contains session.id after.compensated ≡ true

-- How a compensation ends.
pub data Compensated (input : CompensateInput) (session : GameSession) (db : OpsDb)
    : Outcome (List ℕ) × OpsDb → Type 0 where
  not_compensated : (e : OpsError) → Compensated input session db (failed e, db)
  compensated_as :
      (after : OpsDb)
      → IsCompensated input session db after
      → Compensated input session db
          (done (map profile_id (users_in (unique input.user_ids) db.till.club.profiles)), after)

module _ (input : CompensateInput) (session : GameSession) (now : Date) (db : OpsDb)
    (books : IsLedger (ledger_of db)) (new : IsNewKey db) where
  gifted : List Profile
  gifted = users_in (unique input.user_ids) db.till.club.profiles

  mark_session-Compensated :
      (r : Outcome (List ℕ) × Db)
      → IsGiven gifted r
      → All (HasGift (compensation_row input session db.next_id) r.1.grants) gifted
      → IsAllowed (to_rules input session db)
      → (noted : OpsDb)
      → noted.compensations ≡ db.compensations ++ compensation_row input session db.next_id ∷ []
      → Compensated input session db (mark_session session (r.0, with_ledger r.1 noted))
  unfolding gifted
  mark_session-Compensated (failed e, d) (f, l) g a noted n = cc
  mark_session-Compensated (done vs, d) (f, l) g a noted n = rw f (
      compensated_as _ (record {
        allowed = a;
        books = l;
        noted = n;
        reason = known_reason input.reason a.known;
        credited = g;
        marked = rw (eq→== session.id session.id refl) refl;
      }))

  compensate_with-Compensated :
      IsAllowed (to_rules input session db)
      → Compensated input session db (compensate_with input session now db)
  unfolding gifted
  compensate_with-Compensated a =
      let (m, e, few, many, tens) = a.minutes in
      let same : minutes_or_0 input.minutes ≡ m = rw e refl in
      let row = compensation_row input session db.next_id in
      let some_minutes : 1 ≤ minutes_or_0 input.minutes = omega (arith, same, few) in
      let whole = subst (λ (k : ℕ). k % 10 ≡ 0) (sym same) tens in
      mark_session-Compensated _
        (gift_each-IsGiven row now gifted (ledger_of db) some_minutes whole books)
        ((gift_each-gifts row now gifted (ledger_of db) some_minutes whole).1 (λ u. inl (new u))) a
        (record db {
          compensations = db.compensations ++ compensation_row input session db.next_id ∷ [];
          next_id = db.next_id + 1;
        })
        refl

  compensate_checked-Compensated :
      (o : Option Refusal)
      → validate_compensation (to_rules input session db) ≡ o
      → Compensated input session db (compensate_checked input session now db o)
  compensate_checked-Compensated (some problem) e = not_compensated _
  compensate_checked-Compensated none e =
      compensate_with-Compensated (validate_compensation_sound (to_rules input session db) e)

-- Where the books balance, the session is found and no grant has a key of the new compensation, a compensation is
-- refused and writes nothing, or it went through: its reason is one of the list or a name that every object
-- inherits, its players are of the session only, it has from ten to 120 minutes in tens, and is the session's
-- first or the owner's; it is noted, each chosen player who exists is in the answer and has a grant of just
-- these minutes, the session counts as compensated from then on, and the books balance.
pub compensate_session-Compensated :
    (input : CompensateInput) (now : Date) (db : OpsDb) (session : GameSession)
    → IsLedger (ledger_of db)
    → IsNewKey db
    → find (λ s. s.id == input.session_id) db.sessions ≡ some session
    → Compensated input session db (compensate_session input now db)
unfolding compensate_session
compensate_session-Compensated input now db session books new found =
    rw (found, compensate_session)
      (compensate_checked-Compensated input session now db books new
        (validate_compensation (to_rules input session db)) refl)
