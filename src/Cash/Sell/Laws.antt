-- ===== src/Cash/Sell/Laws.antt =====
-- The checks of `sell` of backend/src/cash/cash.service.ts: what is known once they are passed.
use oyna.Base.{
  ℕ, ◌%◌, ◌≤◌, ◌≡◌, refl, subst, Bool, true, false, ◌||◌, Option, none, some, length, sum_by, ◌==◌,
  ==→eq, leb→le, arith,
}
use oyna.Rules.Calendar.{Date}
use oyna.Cash.SaleRules.{minutes_per_player}
use oyna.Cash.State.{Role, CashDb}
use oyna.Cash.Tables.{CashError, Outcome, done, failed, ◌>>=◌, is_admin, open_shift_of}
use oyna.Cash.Lines.{resolve_lines}
use oyna.Cash.Sell.{
  CreateSale, is_staff, paid_by, require, or_fail, per_player, total_of, booking_lines, Checked,
  check_sale,
}

pub bind_done {ℓ κ} :
    {A : Type ℓ} {B : Type κ} (m : Outcome A) (f : A → Outcome B) (b : B)
    → (m >>= f) ≡ done b
    → (a : A) × (m ≡ done a) × (f a ≡ done b)
unfolding ◌>>=◌
bind_done (done a) f b h = (a, refl, h)
bind_done (failed e) f b h = cc

require-true : (b : Bool) (e : CashError) (u : Unit) → require b e ≡ done u → b ≡ true
require-true true e u h = refl
require-true false e u h = cc

or_fail-some {ℓ} :
    {A : Type ℓ} (o : Option A) (e : CashError) (a : A) → or_fail o e ≡ done a → o ≡ some a
or_fail-some (some b) e a h = cc
or_fail-some none e a h = cc

per_player_tens :
    (guest : Bool) (minutes players n : ℕ) → per_player guest minutes players ≡ done n → n % 10 ≡ 0
unfolding per_player minutes_per_player
per_player_tens guest minutes players n h = ground arith

done_eq {ℓ} : {A : Type ℓ} {a b : A} → done a ≡ done b → a ≡ b
done_eq e = cc

-- What a checked sale is: the shift of the venue is open, and the seller's own or the seller is an owner;
-- the lines are those that the server resolved, the payments make up their sum, each player gets whole
-- tens of minutes, and one booking at most is paid.
pub record IsChecked (dto : CreateSale) (operator_id : ℕ) (role : Role) (now : Date) (db : CashDb)
    (c : Checked) : Type 0 where
  pub staff : is_staff role ≡ true
  pub shift_open : open_shift_of dto.venue_id db ≡ some c.shift
  pub own : (is_admin role || c.shift.opened_by_id == operator_id) ≡ true
  pub resolved : resolve_lines dto.lines (is_admin role) now db ≡ done c.lines
  pub paid : total_of c.lines ≡ sum_by paid_by dto.payments
  pub tens : c.per_player % 10 ≡ 0
  pub one_booking : length (booking_lines c.lines) ≤ 1

pub check_sale-IsChecked :
    (dto : CreateSale) (operator_id : ℕ) (role : Role) (now : Date) (db : CashDb) (c : Checked)
    → check_sale dto operator_id role now db ≡ done c
    → IsChecked dto operator_id role now db c
unfolding check_sale
check_sale-IsChecked dto operator_id role now db c h =
    let (u1, staff, h1) = bind_done _ _ _ h in
    let (shift, opened, h2) = bind_done _ _ _ h1 in
    let (u3, own, h3) = bind_done _ _ _ h2 in
    let (u4, either, h4) = bind_done _ _ _ h3 in
    let (lines, resolved, h5) = bind_done _ _ _ h4 in
    let (barter, checked, h6) = bind_done _ _ _ h5 in
    let (u7, total, h7) = bind_done _ _ _ h6 in
    let (u8, payment, h8) = bind_done _ _ _ h7 in
    let (u9, received, h9) = bind_done _ _ _ h8 in
    let (n, split, h10) = bind_done _ _ _ h9 in
    let (u11, bookings, h11) = bind_done _ _ _ h10 in
    same_checked _ h11 (record {
      staff = require-true _ _ _ staff;
      shift_open = or_fail-some _ _ _ opened;
      own = require-true _ _ _ own;
      resolved = resolved;
      paid = ==→eq _ _ (require-true _ _ _ total);
      tens = per_player_tens _ _ _ _ split;
      one_booking = leb→le _ _ (require-true _ _ _ bookings);
    })
  where
    same_checked :
        (d : Checked)
        → done d ≡ done c
        → IsChecked dto operator_id role now db d
        → IsChecked dto operator_id role now db c
    same_checked d e k = subst (IsChecked dto operator_id role now db) (done_eq e) k
