-- ===== src/Loyalty/Laws.antt =====
-- `onSessionDebit` of backend/src/loyalty/loyalty.service.ts: counted once.
use native.Mathlib.Decide.{dec_lt}
use oyna.Base.{
  ℕ, ◌+◌, ◌≤◌, ◌<◌, ◌++◌, lt→leb, le→leb, ◌≡◌, refl, inl, inr, Bool, true, false, Bool-cases, List,
  [], ◌∷◌, ltb, if◌then◌else◌, any, length, keep, arith,
}
use oyna.Rules.Calendar.{Date}
use oyna.Ledger.Invariant.{IsLedger}
use oyna.Loyalty.State.{StatusPlay, Club}
use oyna.Loyalty.Service.{
  create_play, refresh_status, record_visit, is_play_of, SessionDebit, on_session_debit,
}
use oyna.Loyalty.Keeping.{
  IsKept, then-IsKept, either-IsKept, refresh_status-IsKept, record_visit-IsKept,
  add_referral_progress-IsKept,
}

-- The plays that a player has in a session.
abbrev pub plays_in : ℕ → ℕ → List StatusPlay → ℕ
plays_in session_id user_id plays = length (keep (is_play_of session_id user_id) plays)

one_of_any : (s u : ℕ) (ps : List StatusPlay) → any (is_play_of s u) ps ≡ true → 0 < plays_in s u ps
one_of_any s u [] h = cc
one_of_any s u (p ∷ ps) h = ground (arith, one_of_any s u ps)

none_of_any :
    (s u : ℕ) (ps : List StatusPlay) → any (is_play_of s u) ps ≡ false → plays_in s u ps ≡ 0
none_of_any s u [] h = refl
none_of_any s u (p ∷ ps) h = ground (arith, none_of_any s u ps)

plays_in-append :
    (s u : ℕ) (ps : List StatusPlay) (p : StatusPlay)
    → is_play_of s u p ≡ true
    → plays_in s u (ps ++ p ∷ []) ≡ plays_in s u ps + 1
plays_in-append s u [] p h = rw h refl
plays_in-append s u (q ∷ ps) p h = ground (arith, plays_in-append s u ps p h)

create_play_once :
    (u s : ℕ) (at : Date) (club : Club)
    → plays_in s u club.plays ≤ 1
    → plays_in s u (create_play u s at club).plays ≡ 1
unfolding create_play
create_play_once u s at club h = elim (Bool-cases (any (is_play_of s u) club.plays)) [
  | inl played ↦ rw played (omega (arith, h, one_of_any s u club.plays played))
  | inr fresh ↦
      let p : StatusPlay = record { user_id = u; session_id = s; minutes = 10; played_at = at } in
      rw fresh (
        omega (
          arith,
          none_of_any s u club.plays fresh,
          plays_in-append s u club.plays p (ground arith),
        ))
]

create_play_books :
    (u s : ℕ) (at : Date) (club : Club)
    → IsLedger club.ledger
    → IsLedger (create_play u s at club).ledger
unfolding create_play
create_play_books u s at club l = go (any (is_play_of s u) club.plays)
  where
    go :
        (b : Bool)
        → IsLedger
            (if b then club else record club {
              plays =
                  club.plays
                  ++ record { user_id = u; session_id = s; minutes = 10; played_at = at } ∷ [];
            }).ledger
    go true = l
    go false = l

rest-IsKept :
    (input : SessionDebit) (at : Date) (club : Club)
    → 0 < input.paid_seconds + input.bonus_seconds + input.manual_seconds
    → IsKept (create_play input.user_id input.session_id at club) (on_session_debit input at club)
unfolding on_session_debit
rest-IsKept input at club some_played =
    let u = input.user_id in
    let c = create_play u input.session_id at club in
    let r = refresh_status u at c in
    let done = then-IsKept (refresh_status-IsKept u at c) (record_visit-IsKept u at r) in
    rw (lt→leb (input.paid_seconds + input.bonus_seconds + input.manual_seconds) 0 some_played) (
      either-IsKept (ltb 0 input.paid_seconds)
        (then-IsKept done
          (add_referral_progress-IsKept u input.paid_seconds at (record_visit u at r)))
        done)

not_played :
    (input : SessionDebit) (at : Date) (club : Club)
    → input.paid_seconds + input.bonus_seconds + input.manual_seconds ≡ 0
    → on_session_debit input at club ≡ club
unfolding on_session_debit
not_played input at club h =
    rw
      (le→leb (input.paid_seconds + input.bonus_seconds + input.manual_seconds) 0
        (omega (arith, h)))
      refl

pub on_session_debit-IsLedger :
    (input : SessionDebit) (at : Date) (club : Club)
    → IsLedger club.ledger
    → IsLedger (on_session_debit input at club).ledger
on_session_debit-IsLedger input at club l =
    elim (dec_lt 0 (input.paid_seconds + input.bonus_seconds + input.manual_seconds)) [
      | yes played ↦
          (rest-IsKept input at club played).books
            (create_play_books input.user_id input.session_id at club l)
      | no none_played ↦ rw (not_played input at club (omega arith)) l
    ]

-- A session that took some seconds is counted once for the player's status, however often its
-- debit is reported (it was counted at most once before), and all that it sets off (the status,
-- the visit, the rewards of visits, streaks and invitations) keeps the ledger's books, if they
-- balanced.
pub on_session_debit_once :
    (input : SessionDebit) (at : Date) (club : Club)
    → IsLedger club.ledger
    → 0 < input.paid_seconds + input.bonus_seconds + input.manual_seconds
    → plays_in input.session_id input.user_id club.plays ≤ 1
    → let after = on_session_debit input at club in
      IsLedger after.ledger × (plays_in input.session_id input.user_id after.plays ≡ 1)
on_session_debit_once input at club l some_played few =
    let u = input.user_id in
    let k = rest-IsKept input at club some_played in
    (
      k.books (create_play_books u input.session_id at club l),
      rw k.plays (create_play_once u input.session_id at club few),
    )
