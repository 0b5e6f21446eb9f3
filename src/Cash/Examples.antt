-- ===== src/Cash/Examples.antt =====
-- backend/src/cash/sale-rules.ts at concrete sales.
use oyna.Base.{◌≡◌, refl}
use oyna.Cash.SaleRules.{each, uneven, not_by_ten, minutes_per_player, booking_due, rest}

shares_60 : minutes_per_player 60 3 ≡ each 20
unfolding minutes_per_player
shares_60 = refl

shares_70 : minutes_per_player 70 3 ≡ uneven
unfolding minutes_per_player
shares_70 = refl

shares_50 : minutes_per_player 50 2 ≡ not_by_ten
unfolding minutes_per_player
shares_50 = refl

rest_of_booking :
    booking_due (record { amount_tenge = 10000; prepay_tenge = 3000; paid_tenge = 4000 })
    ≡ record { kind = rest; amount = 6000; remaining = 6000 }
unfolding booking_due
rest_of_booking = refl
