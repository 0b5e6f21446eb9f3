-- ===== src/Ledger/Invariant.antt =====
-- The invariant of the tables of backend/src/ledger/minute-ledger.service.ts: a grant's seconds, what it
-- still holds and what its entries took out.
pub mod Steps
pub mod Rows
pub mod Loops
pub mod Methods
use oyna.Base.{
  ℕ, ◌+◌, ◌-◌, ◌≤◌, ◌<◌, ◌≡◌, refl, Bool, true, false, List, [], ◌∷◌, ◌++◌, All, sum_by,
  sum_by-append, ◌==◌, if◌then◌else◌, arith, tests, ◌&&◌,
}
use oyna.Base.Distinct.{Distinct, All-imp}
use oyna.Ledger.State.{EntryType, credit, debit, expire, cancel, Grant, Entry, Db}

abbrev pub is_out : EntryType → Bool
is_out credit = false
is_out debit = true
is_out expire = true
is_out cancel = true

abbrev pub is_in : EntryType → Bool
is_in credit = true
is_in debit = false
is_in expire = false
is_in cancel = false

abbrev pub out_of : ℕ → Entry → ℕ
out_of id e = if e.grant_id == id && is_out e.type then e.seconds else 0

abbrev pub into : ℕ → Entry → ℕ
into id e = if e.grant_id == id && is_in e.type then e.seconds else 0

-- What left a grant, and what was credited to it.
abbrev pub outgoing : ℕ → List Entry → ℕ
outgoing id = sum_by (out_of id)

abbrev pub incoming : ℕ → List Entry → ℕ
incoming id = sum_by (into id)

abbrev pub IsAccounted : List Entry → Grant → Type 0
IsAccounted entries g =
    (g.remaining_seconds + outgoing g.id entries ≡ g.seconds) × (incoming g.id entries ≡ g.seconds)

abbrev pub grant_id_of : Grant → ℕ
grant_id_of g = g.id

abbrev pub IsBelow : ℕ → Grant → Type 0
IsBelow n g = g.id < n

abbrev pub IsFiled : ℕ → Entry → Type 0
IsFiled n e = e.grant_id < n

pub record IsLedger (db : Db) : Type 0 where
  pub accounted : All (IsAccounted db.entries) db.grants
  pub numbered : All (IsBelow db.next_id) db.grants
  pub distinct : Distinct grant_id_of db.grants
  pub filed : All (IsFiled db.next_id) db.entries

pub outgoing_fresh : (n : ℕ) (es : List Entry) → All (IsFiled n) es → outgoing n es ≡ 0
outgoing_fresh n [] h = refl
outgoing_fresh n (e ∷ es) h = ground (arith, outgoing_fresh n es h.1)

pub incoming_fresh : (n : ℕ) (es : List Entry) → All (IsFiled n) es → incoming n es ≡ 0
incoming_fresh n [] h = refl
incoming_fresh n (e ∷ es) h = ground (arith, incoming_fresh n es h.1)

pub outgoing-append :
    (id : ℕ) (es : List Entry) (e : Entry)
    → outgoing id (es ++ e ∷ []) ≡ outgoing id es + out_of id e
outgoing-append id es e = omega (arith, sum_by-append (out_of id) es (e ∷ []))

pub incoming-append :
    (id : ℕ) (es : List Entry) (e : Entry) → incoming id (es ++ e ∷ []) ≡ incoming id es + into id e
incoming-append id es e = omega (arith, sum_by-append (into id) es (e ∷ []))

-- A new row raises the ids.
pub IsBelow-weaken : (n m : ℕ) → n ≤ m → (gs : List Grant) → All (IsBelow n) gs → All (IsBelow m) gs
IsBelow-weaken n m le = All-imp {P = IsBelow n} {Q = IsBelow m} (λ g h. omega arith)

pub IsFiled-weaken : (n m : ℕ) → n ≤ m → (es : List Entry) → All (IsFiled n) es → All (IsFiled m) es
IsFiled-weaken n m le = All-imp {P = IsFiled n} {Q = IsFiled m} (λ e h. omega arith)

-- Drawing `seconds` from grant `id`: its rows lose them, and hold so many.
abbrev pub IsDrawn : ℕ → ℕ → (Grant → Grant) → Grant → Type 0
IsDrawn id seconds f g =
    g.id ≡ id
    → (f g ≡ record g { remaining_seconds = g.remaining_seconds - seconds })
      × (seconds ≤ g.remaining_seconds)

-- … with an entry for them.
pub record IsDraw (id seconds : ℕ) (f : Grant → Grant) (e : Entry) (grants : List Grant)
    : Type 0 where
  pub entry_grant : e.grant_id ≡ id
  pub entry_out : is_out e.type ≡ true
  pub entry_seconds : e.seconds ≡ seconds
  pub fits : All (IsDrawn id seconds f) grants
