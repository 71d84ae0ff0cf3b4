-- ===== src/Client/Timeout.antt =====
-- The time-out of the typed client's list, watch and delete-collection requests.
use Prim.Native.Nat.{◌*◌, ◌^◌}
use kubestellar_workload_sta.Base.{ℕ, ◌≡◌, ◌≤◌, ◌<◌, some, arith}
use kubestellar_workload_sta.Client.{timeout_duration}

-- The duration of a time-out of at most 9223372036 seconds, about 292 years, is exact and not negative as
-- an int64: the multiplication by a second's nanoseconds does not wrap around.
pub timeout_duration-exact :
    (seconds : ℕ)
    → seconds ≤ 9223372036
    → (timeout_duration (some seconds) ≡ seconds * 1000000000)
      × (timeout_duration (some seconds) < 2 ^ 63)
unfolding timeout_duration
timeout_duration-exact seconds h = ground arith
