-- ===== src/Team/Visits.antt =====
-- backend/src/users/visit-status.ts: what a player is called by the visits.
use oyna.Base.{ℕ, ◌≤◌, ◌<◌, ◌≡◌, ◌⊎◌, Option, leb, if◌then◌else◌, or_else, arith}

pub data VisitStatus : Type 0 where
  newcomer regular rare inactive : VisitStatus

pub record VisitRules : Type 0 where
  pub new_days : ℕ
  pub window_days : ℕ
  pub regular_visits : ℕ

pub record VisitInfo : Type 0 where
  pub first_visit_days_ago : Option ℕ
  pub recent_visits : ℕ
  pub registered_days_ago : ℕ

unfoldable pub visit_status : VisitInfo → VisitRules → VisitStatus
visit_status info rules =
    if leb (or_else info.first_visit_days_ago info.registered_days_ago) rules.new_days
    then newcomer
    else if leb rules.regular_visits info.recent_visits
    then regular
    else if leb 1 info.recent_visits
    then rare
    else inactive

-- A status from the least visits to the most; the newcomers stand apart.
abbrev pub rank : VisitStatus → ℕ
rank newcomer = 0
rank inactive = 1
rank rare = 2
rank regular = 3

-- More visits in the window never make the status worse, and never make or unmake a newcomer.
pub visit_status_monotone :
    (first : Option ℕ) (registered fewer more : ℕ) (rules : VisitRules)
    → fewer ≤ more
    → let status = λ (visits : ℕ).
      visit_status
        (record {
          first_visit_days_ago = first;
          recent_visits = visits;
          registered_days_ago = registered;
        })
        rules in
      (rank (status fewer) ≤ rank (status more))
      × ((rank (status fewer) ≡ rank (status more)) ⊎ (0 < rank (status fewer)))
unfolding visit_status
visit_status_monotone first registered fewer more rules h = ground (arith, h)
