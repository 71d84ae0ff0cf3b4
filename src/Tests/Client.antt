-- ===== src/Tests/Client.antt =====
-- The theorems on the typed client at concrete inputs.
use Prim.Native.Nat.{◌^◌}
use kubestellar_workload_sta.Base.{ℕ, ◌≡◌, ◌<◌, Bool, true, false, Option, some, arith}
use kubestellar_workload_sta.Client.{Options, watch, request, timeout_duration}
use kubestellar_workload_sta.Client.Decode.{decode, decode-request}
use kubestellar_workload_sta.Client.Timeout.{timeout_duration-exact}
use kubestellar_workload_sta.Tests.Fixture.{kinds}

-- List options are a time-out and the watch flag; the others have no fields.
abbrev pub options : Options
options = record {
  GetOptions = Unit {0};
  ListOptions = Option ℕ × Bool;
  CreateOptions = Unit {0};
  UpdateOptions = Unit {0};
  DeleteOptions = Unit {0};
  PatchOptions = Unit {0};
  PatchType = Unit {0};
  timeout_seconds = λ o. o.0;
  set_watch = λ o. (o.0, true);
}

decode-request_example :
    decode kinds options (request kinds options (watch (some 30, false)))
    ≡ some (watch (some 30, true))
decode-request_example = decode-request kinds options (watch (some 30, false))

timeout_duration-exact_example :
    (timeout_duration (some 30) ≡ 30000000000) × (timeout_duration (some 30) < 2 ^ 63)
timeout_duration-exact_example = timeout_duration-exact 30 (omega arith)
