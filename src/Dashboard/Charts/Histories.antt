-- ===== src/Dashboard/Charts/Histories.antt =====
-- The histories of the failure rate and of the queue depth.
use taskfire.Prelude.{
  ℕ, zero, suc, ◌+◌, ◌-◌, ◌≡◌, ◌≤◌, ◌∙◌, refl, sym, ap, true, false, Bool, Option, none, some, List,
  [], ◌∷◌, ◌++◌, length, drop, length-append, length-drop, drop-drop, arith,
}
use taskfire.Dashboard.Charts.{
  last_of, RatePoint, FailureChart, empty_chart, load_rate, LiveMetrics, DepthPoint, depth_point,
  observe,
}

drop-append {ℓ} :
    {A : Type ℓ} (n : ℕ) (xs ys : List A) → n ≤ length xs → drop n (xs ++ ys) ≡ drop n xs ++ ys
drop-append zero xs ys h = refl
drop-append (suc n) [] ys h = absurd (omega arith)
drop-append (suc n) (x ∷ xs) ys h = drop-append n xs ys (omega arith)

-- Cutting a history to its newest entries before one is added changes nothing.
last_of-last_of {ℓ} :
    {A : Type ℓ} (n : ℕ) (xs : List A) (x : A)
    → last_of n (last_of n xs ++ x ∷ []) ≡ last_of n (xs ++ x ∷ [])
last_of-last_of n xs x =
    let k = length xs - n in
    let cut : drop k xs ++ x ∷ [] ≡ drop k (xs ++ x ∷ []) =
      sym (drop-append k xs (x ∷ []) (omega arith)) in
    let gone : k + (length (drop k xs ++ x ∷ []) - n) ≡ length (xs ++ x ∷ []) - n =
      omega
        (arith, length-append (drop k xs) (x ∷ []), length-drop k xs, length-append xs (x ∷ [])) in
    ap (drop (length (drop k xs ++ x ∷ []) - n)) cut
    ∙ drop-drop k (length (drop k xs ++ x ∷ []) - n) (xs ++ x ∷ [])
    ∙ ap (λ (m : ℕ). drop m (xs ++ x ∷ [])) gone

-- The values that there are, in order, behind those of `older`.
abbrev pub present_after {ℓ} : {A : Type ℓ} → List A → List (Option A) → List A
present_after older [] = older
present_after older (none ∷ os) = present_after older os
present_after older (some a ∷ os) = present_after (older ++ a ∷ []) os

-- The last request was rejected; before the first is settled, none was.
abbrev pub last_rejected {ℓ} : {A : Type ℓ} → Bool → List (Option A) → Bool
last_rejected b [] = b
last_rejected b (none ∷ os) = last_rejected true os
last_rejected b (some a ∷ os) = last_rejected false os

abbrev pub load_rates : List (Option RatePoint) → FailureChart → FailureChart
load_rates [] c = c
load_rates (o ∷ os) c = load_rates os (load_rate o c)

abbrev pub observe_all : List (Option LiveMetrics) → List DepthPoint → List DepthPoint
observe_all [] history = history
observe_all (o ∷ os) history = observe_all os (observe o history)

pub load_rates-points :
    (os : List (Option RatePoint)) (c : FailureChart) (older : List RatePoint)
    → c.points ≡ last_of 60 older
    → ((load_rates os c).points ≡ last_of 60 (present_after older os))
      × ((load_rates os c).error ≡ last_rejected c.error os)
unfolding load_rate
load_rates-points [] c older h = (h, refl)
load_rates-points (none ∷ os) c older h = load_rates-points os (load_rate none c) older h
load_rates-points (some p ∷ os) c older h =
    load_rates-points os (load_rate (some p) c) (older ++ p ∷ [])
      (ap (λ ps. last_of 60 (ps ++ p ∷ [])) h ∙ last_of-last_of 60 older p)

abbrev pub depth_points : List (Option LiveMetrics) → List (Option DepthPoint)
depth_points [] = []
depth_points (none ∷ os) = none ∷ depth_points os
depth_points (some m ∷ os) = some (depth_point m) ∷ depth_points os

observe_all-points :
    (os : List (Option LiveMetrics)) (history older : List DepthPoint)
    → history ≡ last_of 60 older
    → observe_all os history ≡ last_of 60 (present_after older (depth_points os))
unfolding observe
observe_all-points [] history older h = h
observe_all-points (none ∷ os) history older h = observe_all-points os history older h
observe_all-points (some m ∷ os) history older h =
    observe_all-points os (observe (some m) history) (older ++ depth_point m ∷ []) (
      ap (λ ps. last_of 60 (ps ++ depth_point m ∷ [])) h ∙ last_of-last_of 60 older (depth_point m))

-- From their first render, the chart of the failure rate holds the sixty newest points that were
-- loaded, oldest first, and shows an error exactly if the last request was rejected; the chart of
-- the queue depth holds the points of the sixty newest metrics that arrived.
pub charts-newest :
    (loads : List (Option RatePoint)) (arrivals : List (Option LiveMetrics))
    → ((load_rates loads empty_chart).points ≡ last_of 60 (present_after [] loads))
      × ((load_rates loads empty_chart).error ≡ last_rejected false loads)
      × (observe_all arrivals [] ≡ last_of 60 (present_after [] (depth_points arrivals)))
unfolding empty_chart
charts-newest loads arrivals =
    let (points, error) = load_rates-points loads empty_chart [] refl in
    (points, error, observe_all-points arrivals [] [] refl)
