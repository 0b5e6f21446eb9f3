-- ===== src/Ops/Compensation.antt =====
-- backend/src/ops/compensation-rules.ts: what an operator may give back for a broken session.
use oyna.Base.{
  ℕ, ◌+◌, ◌-◌, ◌*◌, ◌/◌, ◌%◌, ◌≤◌, ◌<◌, ◌≡◌, ◌⊎◌, max, refl, Bool, true, false, ◌&&◌, not, Option,
  none, some, List, leb, ◌==◌, if◌then◌else◌, any, contains, length, arith,
}
use oyna.Rules.Calendar.{Date}

-- The keys of `COMPENSATION_REASONS`, the names that `in` finds on every object (`toString`), and any
-- other text.
pub data CompensationReason : Type 0 where
  game_failure equipment_failure other inherited unknown : CompensationReason

pub record PlayedSession : Type 0 where
  pub start_time : Option Date
  pub end_time : Option Date
  pub deducted_seconds : ℕ

-- `Math.ceil(milliseconds / 600000) * 10`
abbrev pub ceil_ten : ℕ → ℕ
ceil_ten ms = (ms + 599999) / 600000 * 10

-- The seconds that were paid and not played, in milliseconds; `Math.max(0, a - b)` is `a - b`.
abbrev pub left_ms : ℕ → Date → Date → ℕ
left_ms paid start stop = paid * 1000 - (stop - start)

abbrev pub unplayed_of : ℕ → Option Date → Option Date → ℕ
unplayed_of paid (some start) (some stop) = max 10 (ceil_ten (left_ms paid start stop))
unplayed_of paid _ _ = ceil_ten (paid * 1000)

unfoldable pub unplayed_minutes : PlayedSession → ℕ
unplayed_minutes s =
    if leb s.deducted_seconds 0 then 10 else unplayed_of s.deducted_seconds s.start_time s.end_time

-- `minutes`: none where the number is not whole or is negative. `has_comment`: the comment is not blank.
pub record CompensationInput : Type 0 where
  pub minutes : Option ℕ
  pub user_ids : List ℕ
  pub session_player_ids : List ℕ
  pub reason : CompensationReason
  pub has_comment : Bool
  pub already_compensated : Bool
  pub is_owner : Bool

-- The texts of the refusals.
pub data Refusal : Type 0 where
  only_owner no_reason no_comment no_player not_in_session not_by_ten too_much : Refusal

abbrev pub is_known : CompensationReason → Bool
is_known unknown = false
is_known _ = true

-- A key of the list itself.
abbrev pub is_listed : CompensationReason → Bool
is_listed inherited = false
is_listed unknown = false
is_listed _ = true

abbrev pub is_other : CompensationReason → Bool
is_other other = true
is_other _ = false

abbrev pub by_ten : Option ℕ → Bool
by_ten none = false
by_ten (some m) = leb 10 m && (m % 10 == 0)

abbrev pub at_most_120 : Option ℕ → Bool
at_most_120 none = true
at_most_120 (some m) = leb m 120

unfoldable pub validate_compensation : CompensationInput → Option Refusal
validate_compensation input =
    if input.already_compensated && not input.is_owner
    then some only_owner
    else if not (is_known input.reason)
    then some no_reason
    else if is_other input.reason && not input.has_comment
    then some no_comment
    else if length input.user_ids == 0
    then some no_player
    else if any (λ id. not (contains id input.session_player_ids)) input.user_ids
    then some not_in_session
    else if not (by_ten input.minutes)
    then some not_by_ten
    else if not (at_most_120 input.minutes)
    then some too_much
    else none

-- The minutes offered are whole sessions, at least one, and give back all that was paid and not
-- played, but less than one session more, or just one.
pub unplayed_minutes_lem :
    (paid : ℕ) (start stop : Date)
    → let given =
        unplayed_minutes
          (record { start_time = some start; end_time = some stop; deducted_seconds = paid }) in
      (given % 10 ≡ 0)
      × (10 ≤ given)
      × (left_ms paid start stop ≤ given * 60000)
      × ((given ≡ 10) ⊎ (given * 60000 < left_ms paid start stop + 600000))
unfolding unplayed_minutes
unplayed_minutes_lem paid start stop = ground arith

-- What a compensation that is allowed has, whoever asks for it.
pub record IsAllowed (input : CompensationInput) : Type 0 where
  pub owner : (input.already_compensated ≡ false) ⊎ (input.is_owner ≡ true)
  pub known : is_known input.reason ≡ true
  pub explained : (is_other input.reason ≡ false) ⊎ (input.has_comment ≡ true)
  pub players : 0 < length input.user_ids
  pub in_session : any (λ id. not (contains id input.session_player_ids)) input.user_ids ≡ false
  pub minutes : (m : ℕ) × (input.minutes ≡ some m) × (10 ≤ m) × (m ≤ 120) × (m % 10 ≡ 0)

passed :
    (a b c d e f g : Bool)
    → (if a
        then some only_owner
        else if b
        then some no_reason
        else if c
        then some no_comment
        else if d
        then some no_player
        else if e
        then some not_in_session
        else if f
        then some not_by_ten
        else if g
        then some too_much
        else none)
      ≡ none
    → (a ≡ false)
      × (b ≡ false)
      × (c ≡ false)
      × (d ≡ false)
      × (e ≡ false)
      × (f ≡ false)
      × (g ≡ false)
passed a b c d e f g h = ground arith

one_of : (b c : Bool) → (b && not c) ≡ false → (b ≡ false) ⊎ (c ≡ true)
one_of b c h = ground arith

minutes_allowed :
    (o : Option ℕ)
    → not (by_ten o) ≡ false
    → not (at_most_120 o) ≡ false
    → (m : ℕ) × (o ≡ some m) × (10 ≤ m) × (m ≤ 120) × (m % 10 ≡ 0)
minutes_allowed none f g = cc
minutes_allowed (some m) f g = (m, refl, ground (arith, f), ground (arith, g), ground (arith, f))

-- A compensation that passes has a reason that `in` finds (explained, if it is another one), some players, all
-- of the session, from 10 to 120 minutes in tens, and is the first one or the owner's.
pub validate_compensation_sound :
    (input : CompensationInput) → validate_compensation input ≡ none → IsAllowed input
unfolding validate_compensation
validate_compensation_sound input h =
    let (a, b, c, d, e, f, g) = passed _ _ _ _ _ _ _ h in
    record {
      owner = one_of input.already_compensated input.is_owner a;
      known = ground (arith, b);
      explained = one_of (is_other input.reason) input.has_comment c;
      players = ground (arith, d);
      in_session = e;
      minutes = minutes_allowed input.minutes f g;
    }

-- A compensation with all that passes.
pub validate_compensation_complete :
    (input : CompensationInput) → IsAllowed input → validate_compensation input ≡ none
unfolding validate_compensation
validate_compensation_complete input a = ground (arith, a)
