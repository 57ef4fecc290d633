-- ===== src/Dashboard/Charts/Cards.antt =====
-- The cards of dashboard/src/components/MetricCard.tsx, and the trend that one shows beside a
-- value.
use taskfire.Prelude.{ℕ, ◌-◌, ◌*◌, String, Bool, Option, none, some, ltb, leb, eqb, if◌then◌else◌}
use taskfire.Dashboard.JobTable.Details.{present}

-- The trend of a `MetricCard` with a value before: the icon, whether it is an improvement, and the
-- change in percent as a fraction. Counts are natural numbers.
pub data Icon : Type 0 where
  up down level : Icon

pub record Trend : Type 0 where
  pub icon : Icon
  pub is_improvement : Bool
  pub percent : ℕ × ℕ

unfoldable pub trend : (higher_is_better : Bool) (value : ℕ) → Option ℕ → Option Trend
trend better value none = none
trend better value (some previous) =
    if eqb previous 0
    then none
    else some (record {
      icon = if ltb previous value then up else if ltb value previous then down else level;
      is_improvement = if better then ltb previous value else ltb value previous;
      percent =
          ((if leb previous value then value - previous else previous - value) * 100, previous);
    })

-- What a card shows once its counter has come to rest.
pub record CardView : Type 0 where
  pub label : String
  pub value : ℕ
  pub unit : Option String
  pub trend : Option Trend
  pub subtitle : Option String

-- `MetricCard`, without a formatter
unfoldable pub metric_card :
    (label : String) (value : ℕ) (previous : Option ℕ) (higher_is_better : Bool)
    (unit subtitle : Option String)
    → CardView
unfolding trend present
metric_card label value previous better unit subtitle = record {
  label = label;
  value = value;
  unit = present unit;
  trend = trend better value previous;
  subtitle = present subtitle;
}
