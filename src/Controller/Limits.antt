-- ===== src/Controller/Limits.antt =====
-- `computeBurstFromNumGVRs` and `computeQPSFromNumGVRs`. The defaults are constants of client-go. A
-- rate is counted in quarters, in which the source's float32 division by 4 is exact below 2 ^ 24; beyond, both exceed the bound.
use Prim.Native.Nat.{min, max}
use kubestellar_workload_sta.Base.{ℕ, ◌≤◌, ◌≡◌, ltb, if◌then◌else◌, arith}

abbrev reference_burst_upper_bound : ℕ
reference_burst_upper_bound = 300

-- 50.0 in quarters
abbrev reference_qps_upper_bound : ℕ
reference_qps_upper_bound = 200

unfoldable pub compute_burst : ℕ → ℕ → ℕ
compute_burst default_burst n =
    if ltb n default_burst
    then default_burst
    else if ltb reference_burst_upper_bound n
    then reference_burst_upper_bound
    else n

unfoldable pub compute_qps : ℕ → ℕ → ℕ
compute_qps default_qps n =
    if ltb n default_qps
    then default_qps
    else if ltb reference_qps_upper_bound n
    then reference_qps_upper_bound
    else n

-- If client-go's default burst is at most 300, the burst is the number of resources, raised to the
-- default and capped at 300.
compute_burst-eq-max-min :
    (default_burst n : ℕ)
    → default_burst ≤ reference_burst_upper_bound
    → compute_burst default_burst n ≡ max default_burst (min n reference_burst_upper_bound)
unfolding compute_burst
compute_burst-eq-max-min default_burst n h = ground arith

-- If client-go's default rate is at most 50, the rate is a quarter of the number of resources, raised
-- to the default and capped at 50. Rates are in quarters.
compute_qps-eq-max-min :
    (default_qps n : ℕ)
    → default_qps ≤ reference_qps_upper_bound
    → compute_qps default_qps n ≡ max default_qps (min n reference_qps_upper_bound)
unfolding compute_qps
compute_qps-eq-max-min default_qps n h = ground arith
