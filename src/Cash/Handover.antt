-- ===== src/Cash/Handover.antt =====
-- The change of shifts under `closeShift` and `openShift` of backend/src/cash/cash.service.ts.
use oyna.Base.{
  ℕ, ◌≤◌, ◌≡◌, refl, sym, subst, ap, ◌∙◌, inl, inr, Bool, true, false, Bool-cases, ◌&&◌, not,
  is_some, none, some, List, [], ◌∷◌, find, keep, length, update_where, ◌==◌, ==→eq, eq→==, arith,
}
use oyna.Base.Find.{find_test}
use oyna.Base.Rows.{length-keep-update}
use oyna.Rules.Calendar.{Date}
use oyna.Cash.State.{Role, CashShift, CashDb}
use oyna.Cash.Tables.{done, is_admin, is_open, is_open_of, open_shift_of, shift_by_id}
use oyna.Cash.Shifts.{
  OpenShift, previous_cash, previous_shift, differs_from, open_cash_shift, CloseShift, Closed,
  has_gap, gaps_of, closed_with, close_of, close_cash_shift,
}
use oyna.Cash.Drawer.{expected}
use oyna.Cash.Invariant.{IsDesk}

found_none :
    (p : CashShift → Bool) (ss : List CashShift) → length (keep p ss) ≤ 0 → find p ss ≡ none
found_none p [] h = refl
found_none p (s ∷ ss) h = elim (Bool-cases (p s)) [
  | inl hit ↦ absurd (omega (arith, rw hit at h))
  | inr miss ↦ rw miss (found_none p ss (rw miss at h))
]

some_counted :
    (p q : CashShift → Bool) (ss : List CashShift) (s : CashShift)
    → find p ss ≡ some s
    → q s ≡ true
    → 1 ≤ length (keep q ss)
some_counted p q [] s h t = cc
some_counted p q (x ∷ ss) s h t = elim (Bool-cases (q x)) [
  | inl hit ↦ rw hit (omega arith)
  | inr miss ↦ rw miss (elim (Bool-cases (p x)) [
    | inl here ↦ cc (rw here at h, t, miss)
    | inr later ↦ some_counted p q ss s (rw later at h) t
  ])
]

-- The only row of a query leaves it when it is rewritten out of it.
only_row :
    (p q : CashShift → Bool) (g : CashShift → CashShift) (ss : List CashShift) (s : CashShift)
    → length (keep q ss) ≤ 1
    → find p ss ≡ some s
    → q s ≡ true
    → ((x : CashShift) → q (g x) ≡ false)
    → find q (update_where p g ss) ≡ none
only_row p q g [] s few h t out = refl
only_row p q g (x ∷ ss) s few h t out = elim (Bool-cases (p x)) [
  | inl here ↦
      let mine : q x ≡ true =
        subst (λ (y : CashShift). q y ≡ true) (sym (some_eq (rw here at h))) t in
      let rest = length-keep-update q p g ss (λ y e. still y e) in
      let none_left : length (keep q ss) ≤ 0 = omega (arith, rw mine at few) in
      rw (here, out x) (found_none q (update_where p g ss) (omega (arith, rest, none_left)))
  | inr later ↦ elim (Bool-cases (q x)) [
    | inl hit ↦ absurd (omega (arith, rw hit at few, some_counted p q ss s (rw later at h) t))
    | inr miss ↦ rw (later, miss) (only_row p q g ss s (rw miss at few) (rw later at h) t out)
  ]
]
  where
    some_eq : {a b : CashShift} → some a ≡ some b → a ≡ b
    some_eq e = cc

    still : (y : CashShift) → q (g y) ≡ true → q y ≡ true
    still y e = absurd (true_false (sym e ∙ out y))
      where
        true_false : true ≡ false → ⊥
        true_false h = cc

-- With a comment, who opened the shift, or an owner, closes it.
close_with_comment :
    (shift_id : ℕ) (dto : CloseShift) (actor_id : ℕ) (role : Role) (now : Date) (db : CashDb)
    (s : CashShift)
    → shift_by_id shift_id db ≡ some s
    → is_open s ≡ true
    → (not (is_admin role) && not (s.opened_by_id == actor_id)) ≡ false
    → is_some dto.close_comment ≡ true
    → let after = (close_cash_shift shift_id dto actor_id role now db).1 in
      ((r : Closed) × ((close_cash_shift shift_id dto actor_id role now db).0 ≡ done r))
      × (after.shifts ≡ update_where (λ t. t.id == s.id) (closed_with dto actor_id now) db.shifts)
unfolding close_cash_shift close_of
close_with_comment shift_id dto actor_id role now db s found opened own comment =
    rw (found, close_cash_shift, close_of, opened, own, comment)
      (elim (Bool-cases (has_gap (gaps_of dto (expected s.id s.opening_cash db)))) [
        | inl gap ↦ rw gap ((_, refl), refl)
        | inr none_found ↦ rw none_found ((_, refl), refl)
      ])

open_with_note :
    (dto : OpenShift) (operator_id : ℕ) (now : Date) (db : CashDb)
    → open_shift_of dto.venue_id db ≡ none
    → is_some dto.opening_note ≡ true
    → (s : CashShift) × ((open_cash_shift dto operator_id now db).0 ≡ done s)
unfolding open_cash_shift
open_with_note dto operator_id now db free note =
    rw (free, open_cash_shift, note)
      (elim (Bool-cases
        (differs_from (previous_cash (previous_shift dto.venue_id db)) dto.opening_cash)) [
          | inl differs ↦ rw differs (_, refl)
          | inr agrees ↦ rw agrees (_, refl)
        ])

-- The till is never stuck: where the tables are well-formed, an open shift is closed by who opened it or by
-- an owner, whatever was counted, if a comment is given, and then anybody's opening of a shift of the venue,
-- with any cash and with a note, goes through.
pub handover_done :
    (shift_id : ℕ) (closing : CloseShift) (actor_id : ℕ) (role : Role) (now : Date) (db : CashDb)
    (s : CashShift) (opening : OpenShift) (operator_id : ℕ) (later : Date)
    → IsDesk db
    → shift_by_id shift_id db ≡ some s
    → is_open s ≡ true
    → (not (is_admin role) && not (s.opened_by_id == actor_id)) ≡ false
    → is_some closing.close_comment ≡ true
    → opening.venue_id ≡ s.venue_id
    → is_some opening.opening_note ≡ true
    → let after = (close_cash_shift shift_id closing actor_id role now db).1 in
      ((r : Closed) × ((close_cash_shift shift_id closing actor_id role now db).0 ≡ done r))
      × ((t : CashShift) × ((open_cash_shift opening operator_id later after).0 ≡ done t))
handover_done shift_id closing actor_id role now db s opening operator_id later desk found opened
      own comment venue note =
    let (answer, rows) =
      close_with_comment shift_id closing actor_id role now db s found opened own comment in
    let after = (close_cash_shift shift_id closing actor_id role now db).1 in
    let same = ==→eq _ _ (find_test (λ t. t.id == shift_id) db.shifts s found) in
    let mine = subst (λ (i : ℕ). find (λ t. t.id == i) db.shifts ≡ some s) (sym same) found in
    let free =
      only_row (λ t. t.id == s.id) (is_open_of s.venue_id) (closed_with closing actor_id now)
        db.shifts s (desk.one_open s.venue_id) mine (open_here s opened) (λ t. shut t) in
    (
      answer,
      open_with_note opening operator_id later _
          (subst (λ (v : ℕ). open_shift_of v after ≡ none) (sym venue) (ap (find _) rows ∙ free))
          note,
    )
  where
    open_here : (s : CashShift) → is_open s ≡ true → is_open_of s.venue_id s ≡ true
    open_here s h = rw (eq→== s.venue_id s.venue_id refl) h

    shut : (t : CashShift) → is_open_of s.venue_id (closed_with closing actor_id now t) ≡ false
    shut t = ground arith
