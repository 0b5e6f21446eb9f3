-- ===== src/Sessions/Debit/Laws.antt =====
-- `debitBalanceOnSessionStart` of backend/src/game-sessions/game-sessions.service.ts: one debit and a
-- second one.
use Prim.Native.Nat.{compare}
use native.Mathlib.Decide.{dec_le}
use oyna.Base.{
  ℕ, ◌+◌, ◌*◌, ◌≤◌, ◌≡◌, refl, sym, ap, ◌∙◌, subst, inl, inr, Bool, true, false, Bool-cases, none,
  some, List, [], ◌∷◌, ◌++◌, ◌==◌, if◌then◌else◌, find, length, length-append, arith, eq→==, ==→eq,
}
use oyna.Base.Sort.{sort_by}
use oyna.Base.Find.{find_test, find-update_where}
use oyna.Rules.Calendar.{Date}
use oyna.Ledger.State.{Db, Result, ok, err, Error}
use oyna.Ledger.Ops.{is_blocked}
use oyna.Ledger.Service.{Spent, prepared, spend_for_session}
use oyna.Ledger.Invariant.{IsLedger}
use oyna.Ledger.Invariant.Rows.{held}
use oyna.Ledger.Spending.{IsPaid, spend_for_session-IsPaid, spend_for_session_refused}
use oyna.Loyalty.Service.{on_session_debit}
use oyna.Loyalty.Laws.{on_session_debit-IsLedger}
use oyna.Sessions.State.{GameSession, Hall, done, session_by_id, update_session, Transaction}
use oyna.Sessions.Debit.{
  Debits, debit_transaction, set_ledger, loyalty_of, note_spent, debit_player, debit_each,
  mark_debited, rate, debit_session, debit_balance,
}

-- What a spending does in the two ways it can end.
data Spending (before : Db) : Result Spent × Db → Type 0 where
  taken :
      (s : Spent) (after : Db)
      → s.paid + s.bonus + s.manual ≡ 600
      → IsLedger after
      → Spending before (ok s, after)
  refused : (e : Error) → Spending before (err e, before)

spend-Spending :
    (user_id session_id : ℕ) (now : Date) (db : Db)
    → IsLedger db
    → Spending db (spend_for_session user_id session_id 600 now db)
spend-Spending user_id session_id now db l = elim (Bool-cases (is_blocked user_id now db)) [
  | inl stopped ↦ of_refused (spend_for_session_refused user_id session_id 600 now db (inl stopped))
  | inr free ↦ elim (dec_le 600 (held user_id (prepared user_id now db).grants)) [
    | yes enough ↦ of_paid (spend_for_session-IsPaid user_id session_id 600 now db l free enough)
    | no short ↦
        of_refused (spend_for_session_refused user_id session_id 600 now db (inr (omega arith)))
  ]
]
  where
    of_refused :
        (e : Error) × (spend_for_session user_id session_id 600 now db ≡ (err e, db))
        → Spending db (spend_for_session user_id session_id 600 now db)
    of_refused (e, h) = subst (Spending db) (sym h) (refused e)

    of_paid :
        (s : Spent) × ((spend_for_session user_id session_id 600 now db).0 ≡ ok s)
          × IsPaid user_id 600
              (prepared user_id now db)
              (spend_for_session user_id session_id 600 now db).1
              s
        → Spending db (spend_for_session user_id session_id 600 now db)
    of_paid (s, h, p) =
        subst
          (λ (r : Result Spent).
            Spending db (r, (spend_for_session user_id session_id 600 now db).1))
          (sym h) (taken s _ p.counted p.ledger)

abbrev pub total : Debits → ℕ
total d = d.paid + d.bonus + d.manual

-- One or more debits: the books balance, no session and no score is touched, and each row that was
-- added to the transactions is one of ten minutes.
pub record IsCharged (d : Debits) (hall : Hall) (e : Debits) (after : Hall) : Type 0 where
  pub books : IsLedger after.club.ledger
  pub sessions : after.sessions ≡ hall.sessions
  pub scores : after.scores ≡ hall.scores
  pub counted : total e + 600 * length hall.transactions ≡ total d + 600 * length after.transactions

charge_step :
    (s : GameSession) (user_id : ℕ) (now : Date) (d : Debits) (hall : Hall) (r : Result Spent × Db)
    → IsLedger hall.club.ledger
    → Spending hall.club.ledger r
    → IsCharged d hall
        (note_spent s user_id now r (d, hall)).0
        (note_spent s user_id now r (d, hall)).1
unfolding note_spent
charge_step s user_id now d hall _ l (refused e) = record {
  books = l;
  sessions = refl;
  scores = refl;
  counted = refl;
}
charge_step s user_id now d hall _ l (taken spent db ten books) = go s.is_tournament
  where
    rows : List Transaction
    rows = hall.transactions ++ debit_transaction s user_id spent.taken hall.next_id ∷ []

    e : Debits
    e = record {
      paid = d.paid + spent.paid;
      bonus = d.bonus + spent.bonus;
      manual = d.manual + spent.manual;
    }

    noted : Hall
    noted = record (set_ledger db hall) { transactions = rows; next_id = hall.next_id + 1 }

    longer : total e + 600 * length hall.transactions ≡ total d + 600 * length rows
    longer = omega (
      arith,
      ten,
      length-append hall.transactions (debit_transaction s user_id spent.taken hall.next_id ∷ []),
    )

    go :
        (b : Bool)
        → IsCharged d hall e (
            if b then noted else record noted {
              club = on_session_debit (loyalty_of s user_id spent) now noted.club;
            })
    go true = record { books = books; sessions = refl; scores = refl; counted = longer }
    go false = record {
      books = on_session_debit-IsLedger (loyalty_of s user_id spent) now noted.club books;
      sessions = refl;
      scores = refl;
      counted = longer;
    }

debit_player-IsCharged :
    (s : GameSession) (now : Date) (user_id : ℕ) (d : Debits) (hall : Hall)
    → IsLedger hall.club.ledger
    → let r = debit_player s now user_id (d, hall) in IsCharged d hall r.0 r.1
unfolding debit_player
debit_player-IsCharged s now user_id d hall l =
    charge_step s user_id now d hall _ l (spend-Spending user_id s.id now hall.club.ledger l)

IsCharged-trans :
    {d e f : Debits} {a b c : Hall} → IsCharged d a e b → IsCharged e b f c → IsCharged d a f c
IsCharged-trans p q = record {
  books = q.books;
  sessions = q.sessions ∙ p.sessions;
  scores = q.scores ∙ p.scores;
  counted = omega (arith, p.counted, q.counted);
}

pub debit_each-IsCharged :
    (s : GameSession) (now : Date) (user_ids : List ℕ) (d : Debits) (hall : Hall)
    → IsLedger hall.club.ledger
    → let r = debit_each s now user_ids (d, hall) in IsCharged d hall r.0 r.1
unfolding debit_each
debit_each-IsCharged s now [] d hall l = record {
  books = l;
  sessions = refl;
  scores = refl;
  counted = refl;
}
debit_each-IsCharged s now (user_id ∷ user_ids) d hall l =
    let r = debit_player s now user_id (d, hall) in
    let p = debit_player-IsCharged s now user_id d hall l in
    IsCharged-trans p (debit_each-IsCharged s now user_ids r.0 r.1 p.books)

-- The row of a session after an update by its id.
pub session-updated :
    (id : ℕ) (f : GameSession → GameSession) (hall : Hall) (s : GameSession)
    → ((t : GameSession) → (f t).id ≡ t.id)
    → session_by_id id hall ≡ some s
    → session_by_id id (update_session s.id f hall) ≡ some (f s)
session-updated id f hall s keeps h =
    let same : s.id ≡ id = ==→eq s.id id (find_test (λ t. t.id == id) hall.sessions s h) in
    subst (λ (i : ℕ). session_by_id id (update_session i f hall) ≡ some (f s)) (sym same)
      (find-update_where (λ t. t.id == id) f hall.sessions s
        (λ t hit. eq→== (f t).id id (keeps t ∙ ==→eq t.id id hit)) h)

-- What the debit leaves in the row of its session.
abbrev pub debited_row : GameSession → Date → Debits → GameSession
debited_row s now d = rate d s.is_tournament (mark_debited now d s)

abbrev pub zero_debits : Debits
zero_debits = record { paid = 0; bonus = 0; manual = 0 }

abbrev pub charged : GameSession → Date → Hall → Debits × Hall
charged s now hall = debit_each s now (sort_by compare s.players) (zero_debits, hall)

pub debit_balance-first :
    (id : ℕ) (now : Date) (hall : Hall) (s : GameSession)
    → session_by_id id hall ≡ some s
    → s.balance_debited_at ≡ none
    → debit_balance id now hall ≡ (
      done (record { already_debited = false; deducted_seconds = 600 }),
      update_session s.id
          (λ t.
            rate (charged s now hall).0 s.is_tournament (mark_debited now (charged s now hall).0 t))
          (charged s now hall).1,
    )
unfolding debit_balance debit_session
debit_balance-first id now hall s found fresh = rw (debit_balance, found, fresh) refl

debit_balance-again :
    (id : ℕ) (now at : Date) (hall : Hall) (s : GameSession)
    → session_by_id id hall ≡ some s
    → s.balance_debited_at ≡ some at
    → debit_balance id now hall
      ≡ (done (record { already_debited = true; deducted_seconds = s.deducted_seconds }), hall)
unfolding debit_balance
debit_balance-again id now at hall s found debited = rw (debit_balance, found, debited) refl

-- The row of the session after the debit.
pub debit_balance-row :
    (id : ℕ) (now : Date) (hall : Hall) (s : GameSession)
    → IsLedger hall.club.ledger
    → session_by_id id hall ≡ some s
    → s.balance_debited_at ≡ none
    → session_by_id id (debit_balance id now hall).1
      ≡ some (debited_row s now (charged s now hall).0)
debit_balance-row id now hall s l found fresh =
    let c = debit_each-IsCharged s now (sort_by compare s.players) zero_debits hall l in
    rw (debit_balance-first id now hall s found fresh) (
      session-updated id
        (λ t.
          rate (charged s now hall).0 s.is_tournament (mark_debited now (charged s now hall).0 t))
        (charged s now hall).1 s (λ t. refl)
        (ap (λ (ss : List GameSession). find (λ t. t.id == id) ss) c.sessions ∙ found))

pub debit_balance-scores :
    (id : ℕ) (now : Date) (hall : Hall) (s : GameSession)
    → IsLedger hall.club.ledger
    → session_by_id id hall ≡ some s
    → s.balance_debited_at ≡ none
    → (debit_balance id now hall).1.scores ≡ hall.scores
debit_balance-scores id now hall s l found fresh =
    let c = debit_each-IsCharged s now (sort_by compare s.players) zero_debits hall l in
    rw (debit_balance-first id now hall s found fresh) c.scores

-- Where the ledger's books balance, the first debit of a session that exists and is not debited
-- keeps them, and the paid and bonus seconds that it notes in the session are at most ten minutes
-- for each transaction it adds; any later debit of the session answers that it is made, and
-- changes nothing.
pub debit_balance_once :
    (id : ℕ) (now later : Date) (hall : Hall) (s : GameSession)
    → IsLedger hall.club.ledger
    → session_by_id id hall ≡ some s
    → s.balance_debited_at ≡ none
    → let after = (debit_balance id now hall).1 in
      let row = debited_row s now (charged s now hall).0 in
      IsLedger after.club.ledger
      × (session_by_id id after ≡ some row)
      × (row.paid_seconds_debited + row.bonus_seconds_debited + 600 * length hall.transactions
          ≤ 600 * length after.transactions)
      × (debit_balance id later after
          ≡ (done (record { already_debited = true; deducted_seconds = 600 }), after))
debit_balance_once id now later hall s l found fresh =
    let c = debit_each-IsCharged s now (sort_by compare s.players) zero_debits hall l in
    let row = debit_balance-row id now hall s l found fresh in
    let first = debit_balance-first id now hall s found fresh in
    (
      rw first c.books,
      row,
      rw first (omega (arith, c.counted)),
      debit_balance-again id later now (debit_balance id now hall).1 _ row refl,
    )
