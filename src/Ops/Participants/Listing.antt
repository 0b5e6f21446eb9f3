-- ===== src/Ops/Participants/Listing.antt =====
-- `addParticipant` and `removeParticipant` of backend/src/ops/ops.service.ts: who is on the list of a booking.
use oyna.Base.{
  ℕ, ◌+◌, ◌≤◌, ◌≡◌, ◌⊎◌, refl, subst, inl, inr, Bool, true, false, Bool-cases, Option-cases, ◌&&◌,
  not, is_some, any, Option, none, some, List, [], ◌∷◌, ◌++◌, ◌==◌, ==→eq, if◌then◌else◌, find,
  keep, length, length-append, arith,
}
use oyna.Base.Rows.{keep-append, length-keep-keep, none_both}
use oyna.Cash.State.{ParticipantRole, birthday_person, organizer, player, Participant, CashDb}
use oyna.Cash.Tables.{booking_by_id}
use oyna.Ops.State.{
  guest_role, choose_player, no_booking, already_listed, role_taken, Outcome, done, failed,
}
use oyna.Ops.Participants.{
  ParticipantInput, is_special, eq_role, participants_of, is_user, has_user, has_role,
  new_participant, add_participant, remove_of, remove_participant,
}

-- The rows of a user, and those of a role, on the list of a booking.
abbrev pub rows_of_user : ℕ → ℕ → List Participant → List Participant
rows_of_user booking_id user_id =
    keep (λ p. p.booking_id == booking_id && is_user user_id p.user_id)

abbrev pub rows_of_role : ℕ → ParticipantRole → List Participant → List Participant
rows_of_role booking_id role = keep (λ p. p.booking_id == booking_id && eq_role p.role role)

-- Nobody is listed twice, and there is one birthday person and one organizer at most.
pub record IsListed (ps : List Participant) : Type 0 where
  pub users : (booking_id user_id : ℕ) → length (rows_of_user booking_id user_id ps) ≤ 1
  pub persons : (booking_id : ℕ) → length (rows_of_role booking_id birthday_person ps) ≤ 1
  pub organizers : (booking_id : ℕ) → length (rows_of_role booking_id organizer ps) ≤ 1

-- One more row, where the query had none like it.
one_more :
    (q : Participant → Bool) (ps : List Participant) (p : Participant)
    → length (keep q ps) ≤ 1
    → (q p ≡ false) ⊎ (length (keep q ps) ≡ 0)
    → length (keep q (ps ++ p ∷ [])) ≤ 1
one_more q ps p few (inl other) =
    rw (keep-append q ps (p ∷ []), other) (omega (arith, few, length-append (keep q ps) []))
one_more q ps p few (inr none_yet) = rw (keep-append q ps (p ∷ [])) (elim (Bool-cases (q p)) [
  | inl hit ↦ rw hit (omega (arith, none_yet, length-append (keep q ps) (p ∷ [])))
  | inr miss ↦ rw miss (omega (arith, none_yet, length-append (keep q ps) []))
])

user_new :
    (booking_id : ℕ) (input : ParticipantInput) (id : ℕ) (ps : List Participant) (b u : ℕ)
    → has_user input.user_id (keep (λ p. p.booking_id == booking_id) ps) ≡ false
    → let q = λ (p : Participant). p.booking_id == b && is_user u p.user_id in
      (q (new_participant booking_id input id) ≡ false) ⊎ (length (keep q ps) ≡ 0)
user_new booking_id input id ps b u h = of_user input.user_id h
  where
    of_user :
        (o : Option ℕ)
        → has_user o (keep (λ p. p.booking_id == booking_id) ps) ≡ false
        → ((booking_id == b && is_user u o) ≡ false)
          ⊎ (length (keep (λ p. p.booking_id == b && is_user u p.user_id) ps) ≡ 0)
    of_user none h = inl (ground arith)
    of_user (some v) h = elim (Bool-cases (booking_id == b)) [
      | inr elsewhere ↦ inl (rw elsewhere refl)
      | inl here ↦ elim (Bool-cases (v == u)) [
        | inr someone ↦ inl (rw (here, someone) refl)
        | inl same ↦ inr (
            subst (λ (i : ℕ). length (keep (λ p. p.booking_id == i && is_user u p.user_id) ps) ≡ 0)
              (==→eq booking_id b here)
              (none_both (λ p. is_user u p.user_id) (λ p. p.booking_id == booking_id) ps
                (subst
                  (λ (w : ℕ).
                    any (λ p. is_user w p.user_id) (keep (λ p. p.booking_id == booking_id) ps)
                    ≡ false)
                  (==→eq v u same) h)))
      ]
    ]

role_new :
    (booking_id : ℕ) (role wanted : ParticipantRole) (ps : List Participant) (b : ℕ)
    → is_special wanted ≡ true
    → (is_special role && has_role role (keep (λ p. p.booking_id == booking_id) ps)) ≡ false
    → ((booking_id == b && eq_role role wanted) ≡ false) ⊎ (length (rows_of_role b wanted ps) ≡ 0)
role_new booking_id role wanted ps b special h = elim (Bool-cases (booking_id == b)) [
  | inr elsewhere ↦ inl (rw elsewhere refl)
  | inl here ↦ rw here (
      subst (λ (i : ℕ). (eq_role role wanted ≡ false) ⊎ (length (rows_of_role i wanted ps) ≡ 0))
        (==→eq booking_id b here) (of_roles role wanted special h))
]
  where
    of_roles :
        (role wanted : ParticipantRole)
        → is_special wanted ≡ true
        → (is_special role && has_role role (keep (λ p. p.booking_id == booking_id) ps)) ≡ false
        → (eq_role role wanted ≡ false) ⊎ (length (rows_of_role booking_id wanted ps) ≡ 0)
    of_roles birthday_person birthday_person s h =
        inr (none_both (λ p. eq_role p.role birthday_person) (λ p. p.booking_id == booking_id) ps h)
    of_roles organizer organizer s h =
        inr (none_both (λ p. eq_role p.role organizer) (λ p. p.booking_id == booking_id) ps h)
    of_roles birthday_person organizer s h = inl refl
    of_roles organizer birthday_person s h = inl refl
    of_roles player birthday_person s h = inl refl
    of_roles player organizer s h = inl refl
    of_roles role player s h = cc

added-IsListed :
    (booking_id : ℕ) (input : ParticipantInput) (id : ℕ) (ps : List Participant)
    → IsListed ps
    → has_user input.user_id (keep (λ p. p.booking_id == booking_id) ps) ≡ false
    → (is_special input.role && has_role input.role (keep (λ p. p.booking_id == booking_id) ps))
      ≡ false
    → IsListed (ps ++ new_participant booking_id input id ∷ [])
added-IsListed booking_id input id ps k nobody free = record {
  users = λ b u. one_more _ ps _ (k.users b u) (user_new booking_id input id ps b u nobody);
  persons = λ b.
      one_more _ ps _ (k.persons b) (role_new booking_id input.role birthday_person ps b refl free);
  organizers = λ b.
      one_more _ ps _ (k.organizers b) (role_new booking_id input.role organizer ps b refl free);
}

kept-IsListed :
    (r : Participant → Bool) (ps : List Participant) → IsListed ps → IsListed (keep r ps)
kept-IsListed r ps k = record {
  users = λ b u.
      omega
        (arith, k.users b u, length-keep-keep (λ p. p.booking_id == b && is_user u p.user_id) r ps);
  persons = λ b. omega (
    arith,
    k.persons b,
    length-keep-keep (λ p. p.booking_id == b && eq_role p.role birthday_person) r ps,
  );
  organizers = λ b. omega (
    arith,
    k.organizers b,
    length-keep-keep (λ p. p.booking_id == b && eq_role p.role organizer) r ps,
  );
}

add_participant-IsListed :
    (booking_id : ℕ) (input : ParticipantInput) (db : CashDb)
    → IsListed db.participants
    → IsListed (add_participant booking_id input db).1.participants
unfolding add_participant
add_participant-IsListed booking_id input db k =
    go (input.is_guest && is_special input.role) (not input.is_guest && not (is_some input.user_id))
      (is_some (booking_by_id booking_id db)) _ _ refl refl
  where
    listed : List Participant
    listed = participants_of booking_id db

    grown : CashDb
    grown = record db {
      participants = db.participants ++ new_participant booking_id input db.next_id ∷ [];
      next_id = db.next_id + 1;
    }

    go :
        (a b c d e : Bool)
        → has_user input.user_id listed ≡ d
        → (is_special input.role && has_role input.role listed) ≡ e
        → IsListed
            (if◌then◌else◌ {A = Outcome Participant × CashDb} a
              (failed guest_role, db)
              (if b
                then (failed choose_player, db)
                else if not c
                then (failed no_booking, db)
                else if d
                then (failed already_listed, db)
                else if e
                then (failed role_taken, db)
                else (done (new_participant booking_id input db.next_id), grown))).1.participants
    go true b c d e p q = k
    go false true c d e p q = k
    go false false false d e p q = k
    go false false true true e p q = k
    go false false true false true p q = k
    go false false true false false p q =
        added-IsListed booking_id input db.next_id db.participants k p q

remove_of-IsListed :
    (booking_id : ℕ) (p : Participant) (db : CashDb)
    → IsListed db.participants
    → IsListed (remove_of booking_id p db).1.participants
remove_of-IsListed booking_id p db k = elim (Bool-cases (p.booking_id == booking_id)) [
  | inr other ↦ rw other k
  | inl own ↦ elim (Bool-cases (is_some p.credited_at)) [
    | inl credited ↦ rw (own, credited) k
    | inr free ↦ rw (own, free) (kept-IsListed (λ q. not (q.id == p.id)) db.participants k)
  ]
]

remove_participant-IsListed :
    (booking_id participant_id : ℕ) (db : CashDb)
    → IsListed db.participants
    → IsListed (remove_participant booking_id participant_id db).1.participants
unfolding remove_participant
remove_participant-IsListed booking_id participant_id db k =
    elim (Option-cases (find (λ p. p.id == participant_id) db.participants)) [
      | inl missing ↦ rw (missing, remove_participant) k
      | inr (p, e) ↦ rw (e, remove_participant) (remove_of-IsListed booking_id p db k)
    ]

-- Adding and removing participants keep the lists of the bookings in order: on each booking's list nobody
-- stands twice, and there is one birthday person and one organizer at most, if it was so before.
pub participants-IsListed :
    (booking_id participant_id : ℕ) (input : ParticipantInput) (db : CashDb)
    → IsListed db.participants
    → IsListed (add_participant booking_id input db).1.participants
      × IsListed (remove_participant booking_id participant_id db).1.participants
participants-IsListed booking_id participant_id input db k = (
  add_participant-IsListed booking_id input db k,
  remove_participant-IsListed booking_id participant_id db k,
)
