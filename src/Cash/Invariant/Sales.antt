-- ===== src/Cash/Invariant/Sales.antt =====
-- The invariant of sales and bookings of backend/src/cash/cash.service.ts under a sale and its cancellation.
use oyna.Base.{
  ℕ, ◌+◌, ◌≤◌, ◌≡◌, ◌≢◌, refl, sym, subst, ◌∙◌, inl, inr, Bool, true, false, Bool-cases, Option,
  none, some, List, [], ◌∷◌, ◌++◌, All, find, sum_by, update_where, sum_by-append, if◌then◌else◌,
  ◌==◌, ==→eq, eq→==, arith,
}
use oyna.Base.Distinct.{Distinct, Distinct-append_one, All-append, All-imp}
use oyna.Base.Rows.{sum_by-update_same, sum_by-update_found, All-update, Distinct-update}
use oyna.Cash.State.{Sale, Booking}
use oyna.Cash.Tables.{is_completed}
use oyna.Cash.Lines.{line_tenge}
use oyna.Cash.Sell.{booking_lines}
use oyna.Cash.Goods.{paid_more}
use oyna.Cash.Returns.{paid_less}
use oyna.Cash.Invariant.{
  IsSettled, sale_id_of, IsSaleBelow, booked_by, booked, IsBooked, paid_bookings, unpaid_bookings,
  IsSales,
}

pub IsSales-weaken :
    (n m : ℕ) (sales : List Sale) (bookings : List Booking)
    → n ≤ m
    → IsSales n sales bookings
    → IsSales m sales bookings
IsSales-weaken n m sales bookings le k = record {
  settled = k.settled;
  below = All-imp {P = IsSaleBelow n} {Q = IsSaleBelow m} (λ s h. omega arith) sales k.below;
  distinct = k.distinct;
  counted = k.counted;
}

-- An update of sales that leaves their money alone.
pub IsSales-relabel :
    (next : ℕ) (p : Sale → Bool) (f : Sale → Sale) (sales : List Sale) (bookings : List Booking)
    → ((s : Sale) → (f s).id ≡ s.id)
    → ((s : Sale) → IsSettled s → IsSettled (f s))
    → ((id : ℕ) (s : Sale) → booked_by id (f s) ≡ booked_by id s)
    → IsSales next sales bookings
    → IsSales next (update_where p f sales) bookings
IsSales-relabel next p f sales bookings same_id settles same k = record {
  settled = All-update IsSettled p f sales settles k.settled;
  below = All-update (IsSaleBelow next) p f sales (λ s h. rw (same_id s) h) k.below;
  distinct = Distinct-update sale_id_of p f sales same_id k.distinct;
  counted =
      All-imp {P = IsBooked sales} {Q = IsBooked (update_where p f sales)}
        (λ b h. h ∙ sym (sum_by-update_same (booked_by b.id) p f sales (same b.id))) bookings
        k.counted;
}

below-ne :
    (next : ℕ) (sales : List Sale) → All (IsSaleBelow next) sales → All (λ s. next ≢ s.id) sales
below-ne next = All-imp {P = IsSaleBelow next} {Q = λ s. next ≢ s.id} (λ s h. omega arith)

-- What a sale that stands has paid for a booking, by its fields.
booked_by-own :
    (s : Sale) (id : ℕ)
    → s.booking_id ≡ some id
    → is_completed s ≡ true
    → booked_by id s ≡ sum_by line_tenge (booking_lines s.lines)
booked_by-own s id e c = rw (c, e, eq→== id id refl)

booked_by-other :
    (s : Sale) (id i : ℕ) → s.booking_id ≡ some id → (i == id) ≡ false → booked_by i s ≡ 0
booked_by-other s id i e ne = rw e (ground arith)

booked_by-none : (s : Sale) (i : ℕ) → s.booking_id ≡ none → booked_by i s ≡ 0
booked_by-none s i e = rw e (ground arith)

booked-append :
    (i : ℕ) (sales : List Sale) (s : Sale)
    → booked i (sales ++ s ∷ []) ≡ booked i sales + booked_by i s
booked-append i sales s = omega (arith, sum_by-append (booked_by i) sales (s ∷ []))

-- A new sale, and what it pays for a booking.
counted_more :
    (sales : List Sale) (s : Sale) (id : ℕ) (bookings : List Booking)
    → s.booking_id ≡ some id
    → is_completed s ≡ true
    → All (IsBooked sales) bookings
    → All (IsBooked (sales ++ s ∷ [])) (
        update_where
          (λ b. b.id == id)
          (paid_more (sum_by line_tenge (booking_lines s.lines)))
          bookings)
counted_more sales s id [] e c h = tt
counted_more sales s id (b ∷ bs) e c h = (head, counted_more sales s id bs e c h.1)
  where
    amount : ℕ
    amount = sum_by line_tenge (booking_lines s.lines)

    head : IsBooked (sales ++ s ∷ []) (if b.id == id then paid_more amount b else b)
    head = elim (Bool-cases (b.id == id)) [
      | inl hit ↦
          let own =
            subst (λ (i : ℕ). booked_by i s ≡ amount) (sym (==→eq b.id id hit))
              (booked_by-own s id e c) in
          rw hit (omega (arith, h.0, booked-append b.id sales s, own))
      | inr miss ↦
          rw miss (omega (arith, h.0, booked-append b.id sales s, booked_by-other s id b.id e miss))
    ]

pub IsSales-sold :
    (next : ℕ) (sales : List Sale) (s : Sale) (bookings : List Booking)
    → s.id ≡ next
    → IsSettled s
    → is_completed s ≡ true
    → IsSales next sales bookings
    → (o : Option ℕ) → s.booking_id ≡ o
    → IsSales
        (next + 1)
        (sales ++ s ∷ [])
        (paid_bookings o (sum_by line_tenge (booking_lines s.lines)) bookings)
IsSales-sold next sales s bookings new settled c k o e = record {
  settled = All-append IsSettled sales (s ∷ []) k.settled (settled, tt);
  below =
      All-append (IsSaleBelow (next + 1)) sales (s ∷ [])
        (IsSales-weaken next (next + 1) sales bookings (omega arith) k).below
        (omega (arith, new), tt);
  distinct = Distinct-append_one sale_id_of sales s k.distinct (
      All-imp {P = IsSaleBelow next} {Q = λ t. s.id ≢ t.id} (λ t h. omega (arith, new)) sales
        k.below);
  counted = counted o e;
}
  where
    counted :
        (o : Option ℕ)
        → s.booking_id ≡ o
        → All
            (IsBooked (sales ++ s ∷ []))
            (paid_bookings o (sum_by line_tenge (booking_lines s.lines)) bookings)
    counted (some id) e = counted_more sales s id bookings e c k.counted
    counted none e =
        All-imp {P = IsBooked sales} {Q = IsBooked (sales ++ s ∷ [])}
          (λ b h. omega (arith, h, booked-append b.id sales s, booked_by-none s b.id e)) bookings
          k.counted

-- A sale that is cancelled, and what it paid for a booking.
booked-cancelled :
    (sales : List Sale) (s : Sale) (f : Sale → Sale) (i : ℕ)
    → Distinct sale_id_of sales
    → find (λ t. t.id == s.id) sales ≡ some s
    → is_completed (f s) ≡ false
    → booked i (update_where (λ t. t.id == s.id) f sales) + booked_by i s ≡ booked i sales
booked-cancelled sales s f i d found off =
    omega
      (arith, sum_by-update_found sale_id_of (booked_by i) s.id f sales s d found, booked_by_off)
  where
    booked_by_off : booked_by i (f s) ≡ 0
    booked_by_off = rw off refl

counted_less :
    (sales : List Sale) (s : Sale) (f : Sale → Sale) (id : ℕ) (bookings : List Booking)
    → Distinct sale_id_of sales
    → find (λ t. t.id == s.id) sales ≡ some s
    → is_completed s ≡ true
    → is_completed (f s) ≡ false
    → s.booking_id ≡ some id
    → All (IsBooked sales) bookings
    → All (IsBooked (update_where (λ t. t.id == s.id) f sales)) (
        update_where
          (λ b. b.id == id)
          (paid_less (sum_by line_tenge (booking_lines s.lines)))
          bookings)
counted_less sales s f id [] d found c off e h = tt
counted_less sales s f id (b ∷ bs) d found c off e h =
    (head, counted_less sales s f id bs d found c off e h.1)
  where
    amount : ℕ
    amount = sum_by line_tenge (booking_lines s.lines)

    head :
        IsBooked
          (update_where (λ t. t.id == s.id) f sales)
          (if b.id == id then paid_less amount b else b)
    head =
        let lost = booked-cancelled sales s f b.id d found off in
        elim (Bool-cases (b.id == id)) [
          | inl hit ↦
              let own =
                subst (λ (i : ℕ). booked_by i s ≡ amount) (sym (==→eq b.id id hit))
                  (booked_by-own s id e c) in
              rw hit (omega (arith, h.0, lost, own))
          | inr miss ↦ rw miss (omega (arith, h.0, lost, booked_by-other s id b.id e miss))
        ]

pub IsSales-cancelled :
    (next : ℕ) (sales : List Sale) (s : Sale) (f : Sale → Sale) (bookings : List Booking)
    → find (λ t. t.id == s.id) sales ≡ some s
    → is_completed s ≡ true
    → is_completed (f s) ≡ false
    → ((t : Sale) → (f t).id ≡ t.id)
    → ((t : Sale) → IsSettled t → IsSettled (f t))
    → IsSales next sales bookings
    → (o : Option ℕ) → s.booking_id ≡ o
    → IsSales next
        (update_where (λ t. t.id == s.id) f sales)
        (unpaid_bookings o (sum_by line_tenge (booking_lines s.lines)) bookings)
IsSales-cancelled next sales s f bookings found c off same_id settles k o e = record {
  settled = All-update IsSettled _ f sales settles k.settled;
  below = All-update (IsSaleBelow next) _ f sales (λ t h. rw (same_id t) h) k.below;
  distinct = Distinct-update sale_id_of _ f sales same_id k.distinct;
  counted = counted o e;
}
  where
    counted :
        (o : Option ℕ)
        → s.booking_id ≡ o
        → All
            (IsBooked (update_where (λ t. t.id == s.id) f sales))
            (unpaid_bookings o (sum_by line_tenge (booking_lines s.lines)) bookings)
    counted (some id) e = counted_less sales s f id bookings k.distinct found c off e k.counted
    counted none e =
        All-imp {P = IsBooked sales} {Q = IsBooked (update_where (λ t. t.id == s.id) f sales)}
          (λ b h. omega (
            arith,
            h,
            booked-cancelled sales s f b.id k.distinct found off,
            booked_by-none s b.id e,
          ))
          bookings k.counted
