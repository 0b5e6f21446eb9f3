-- ===== src/Ledger/Invariant/Steps.antt =====
-- The two writes on which backend/src/ledger/minute-ledger.service.ts is built: a grant is created
-- with its entry, and seconds are drawn from a grant with their entry.
use oyna.Base.{
  ℕ, ◌+◌, ◌≤◌, ◌<◌, ◌≡◌, ◌≢◌, true, List, [], ◌∷◌, ◌++◌, All, update_where, ◌==◌, ==→eq, ==→ne,
  Bool-cases, inl, inr, if◌then◌else◌, arith, Option-cases,
}
use oyna.Base.Distinct.{Distinct, Distinct-append_one, All-append, All-imp}
use oyna.Rules.Calendar.{Date}
use oyna.Ledger.State.{Grant, Entry, Db, create_entry, update_grant}
use oyna.Ledger.Ops.{CreditInput, create_grant, new_grant, credit_entry, credit_tx, find_key}
use oyna.Ledger.Invariant.{
  is_out, IsAccounted, grant_id_of, IsBelow, IsFiled, IsLedger, outgoing_fresh, incoming_fresh,
  outgoing-append, incoming-append, IsBelow-weaken, IsFiled-weaken, IsDraw, IsDrawn,
}

module _ (id seconds : ℕ) (f : Grant → Grant) (e : Entry) where
  -- A row after the update by id.
  abbrev drawn : Grant → Grant
  drawn g = if g.id == id then f g else g

  drawn-id : (g : Grant) → IsDrawn id seconds f g → (drawn g).id ≡ g.id
  drawn-id g h = elim (Bool-cases (g.id == id)) [
    | inl hit ↦ rw (hit, (h (==→eq _ _ hit)).0)
    | inr miss ↦ rw miss
  ]

  drawn-IsAccounted :
      (es : List Entry) (g : Grant)
      → e.grant_id ≡ id
      → is_out e.type ≡ true
      → e.seconds ≡ seconds
      → IsDrawn id seconds f g
      → IsAccounted es g
      → IsAccounted (es ++ e ∷ []) (drawn g)
  drawn-IsAccounted es g eg eo es' h a = elim (Bool-cases (g.id == id)) [
    | inl hit ↦
        let (shape, fits) = h (==→eq _ _ hit) in
        rw (hit, shape)
          (ground (arith, outgoing-append g.id es e, incoming-append g.id es e, ==→eq g.id id hit))
    | inr miss ↦
        rw miss
          (ground (arith, outgoing-append g.id es e, incoming-append g.id es e, ==→ne g.id id miss))
  ]

  update-IsAccounted :
      (es : List Entry) (gs : List Grant)
      → e.grant_id ≡ id
      → is_out e.type ≡ true
      → e.seconds ≡ seconds
      → All (IsDrawn id seconds f) gs
      → All (IsAccounted es) gs
      → All (IsAccounted (es ++ e ∷ [])) (update_where (λ g. g.id == id) f gs)
  update-IsAccounted es [] eg eo es' h a = tt
  update-IsAccounted es (g ∷ gs) eg eo es' h a =
      (drawn-IsAccounted es g eg eo es' h.0 a.0, update-IsAccounted es gs eg eo es' h.1 a.1)

  update-ids :
      (P : ℕ → Type 0) (gs : List Grant)
      → All (IsDrawn id seconds f) gs
      → All (λ g. P g.id) gs
      → All (λ g. P g.id) (update_where (λ g. g.id == id) f gs)
  update-ids P [] h a = tt
  update-ids P (g ∷ gs) h a = (rw (drawn-id g h.0) a.0, update-ids P gs h.1 a.1)

  update-Distinct :
      (gs : List Grant)
      → All (IsDrawn id seconds f) gs
      → Distinct grant_id_of gs
      → Distinct grant_id_of (update_where (λ g. g.id == id) f gs)
  update-Distinct [] h d = tt
  update-Distinct (g ∷ gs) h d =
      (rw (drawn-id g h.0) (update-ids (λ i. i ≢ g.id) gs h.1 d.0), update-Distinct gs h.1 d.1)

-- Drawing keeps the books.
pub draw-IsLedger :
    (id seconds : ℕ) (f : Grant → Grant) (entry : ℕ → Entry) (db : Db)
    → id < db.next_id
    → IsDraw id seconds f (entry db.next_id) db.grants
    → IsLedger db
    → IsLedger (create_entry entry (update_grant id f db))
draw-IsLedger id seconds f entry db known d l =
    let e = entry db.next_id in
    let grown : db.next_id ≤ db.next_id + 1 = omega arith in
    record {
      accounted =
          update-IsAccounted id seconds f e db.entries db.grants d.entry_grant d.entry_out
            d.entry_seconds d.fits l.accounted;
      numbered =
          update-ids id seconds f e (λ i. i < db.next_id + 1) db.grants d.fits
            (IsBelow-weaken db.next_id (db.next_id + 1) grown db.grants l.numbered);
      distinct = update-Distinct id seconds f e db.grants d.fits l.distinct;
      filed =
          All-append (IsFiled (db.next_id + 1)) db.entries (e ∷ [])
            (IsFiled-weaken db.next_id (db.next_id + 1) grown db.entries l.filed)
            (rw d.entry_grant (omega arith), tt);
    }

-- An entry about another grant leaves a grant's account as it was.
other_entry-IsAccounted :
    (es : List Entry) (e : Entry) (gs : List Grant)
    → All (λ g. e.grant_id ≢ g.id) gs
    → All (IsAccounted es) gs
    → All (IsAccounted (es ++ e ∷ [])) gs
other_entry-IsAccounted es e [] h a = tt
other_entry-IsAccounted es e (g ∷ gs) h a = (
  ground (arith, outgoing-append g.id es e, incoming-append g.id es e),
  other_entry-IsAccounted es e gs h.1 a.1,
)

below-ne : (n : ℕ) (gs : List Grant) → All (IsBelow n) gs → All (λ g. n ≢ g.id) gs
below-ne n = All-imp {P = IsBelow n} {Q = λ g. n ≢ g.id} (λ g h. omega arith)

-- Creating a grant with its entry keeps the books.
pub create_grant-IsLedger :
    (input : CreditInput) (now : Date) (db : Db)
    → IsLedger db
    → IsLedger (create_grant input now db).1
create_grant-IsLedger input now db l =
    let n = db.next_id in
    let g = new_grant input now n in
    let e = credit_entry input now n (n + 1) in
    let grown : n ≤ n + 1 + 1 = omega arith in
    let new = below-ne n db.grants l.numbered in
    record {
      accounted =
          All-append (IsAccounted (db.entries ++ e ∷ [])) db.grants (g ∷ [])
            (other_entry-IsAccounted db.entries e db.grants new l.accounted)
            (
              ground (
                arith,
                outgoing-append n db.entries e,
                incoming-append n db.entries e,
                outgoing_fresh n db.entries l.filed,
                incoming_fresh n db.entries l.filed,
              ),
              tt,
            );
      numbered =
          All-append (IsBelow (n + 1 + 1)) db.grants (g ∷ [])
            (IsBelow-weaken n (n + 1 + 1) grown db.grants l.numbered) (omega arith, tt);
      distinct = Distinct-append_one grant_id_of db.grants g l.distinct new;
      filed =
          All-append (IsFiled (n + 1 + 1)) db.entries (e ∷ [])
            (IsFiled-weaken n (n + 1 + 1) grown db.entries l.filed) (omega arith, tt);
    }

-- So does `creditTx`, whether it creates a grant or returns the one with the key.
pub credit_tx-IsLedger :
    (input : CreditInput) (now : Date) (db : Db) → IsLedger db → IsLedger (credit_tx input now db).1
unfolding credit_tx
credit_tx-IsLedger input now db l = elim (Option-cases (find_key input.idempotency_key db.grants)) [
  | inl new ↦ rw (new, credit_tx) (create_grant-IsLedger input now db l)
  | inr (g, old) ↦ rw (old, credit_tx) l
]
