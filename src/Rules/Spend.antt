-- ===== src/Rules/Spend.antt =====
-- `planSpend` of backend/src/domain/rules.ts: which lots of minutes pay for a session. Ids are only
-- compared, so they are numbers.
pub mod Order
pub mod Laws
pub mod Slices
use Prim.Native.Nat.{compare, Ordering}
use oyna.Base.{ℕ, ◌-◌, min, Bool, Option, none, some, List, [], ◌∷◌, ltb, leb, if◌then◌else◌, keep}
use oyna.Base.Sort.{sort_by}
use oyna.Rules.Calendar.{Date}

-- The kinds of the database's enum `MinuteKind`.
pub data MinuteKind : Type 0 where
  paid bonus reward compensation manual legacy_unknown : MinuteKind

pub record MinuteLot : Type 0 where
  pub id : ℕ
  pub remaining_seconds : ℕ
  pub expires_at : Option Date
  pub created_at : Date
  pub kind : MinuteKind

pub record SpendSlice : Type 0 where
  pub id : ℕ
  pub seconds : ℕ
  pub kind : MinuteKind

-- `d !== 0 ? d : …`
abbrev pub then_by : Ordering → Ordering → Ordering
then_by Ordering.eq o = o
then_by o _ = o

-- A date that is absent stands last.
abbrev pub compare_expiry : Option Date → Option Date → Ordering
compare_expiry (some a) (some b) = compare a b
compare_expiry (some a) none = Ordering.lt
compare_expiry none (some b) = Ordering.gt
compare_expiry none none = Ordering.eq

-- The comparator's sign.
unfoldable pub compare_lots : MinuteLot → MinuteLot → Ordering
compare_lots a b =
    then_by (compare_expiry a.expires_at b.expires_at)
      (then_by (compare a.created_at b.created_at) (compare a.id b.id))

abbrev pub has_remaining : MinuteLot → Bool
has_remaining l = ltb 0 l.remaining_seconds

-- The `for` loop: `left` is what is still to be taken.
unfoldable pub take_slices : ℕ → List MinuteLot → List SpendSlice
take_slices left [] = []
take_slices left (lot ∷ lots) =
    let take = min lot.remaining_seconds left in
    let rest = take_slices (left - take) lots in
    let here =
      if ltb 0 take then record { id = lot.id; seconds = take; kind = lot.kind } ∷ rest else rest in
    if leb left 0 then [] else here

unfoldable pub sorted_lots : List MinuteLot → List MinuteLot
sorted_lots lots = sort_by compare_lots (keep has_remaining lots)

unfoldable pub plan_spend : List MinuteLot → ℕ → List SpendSlice
plan_spend lots seconds = take_slices seconds (sorted_lots lots)
