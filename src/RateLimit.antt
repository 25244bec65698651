-- ===== src/RateLimit.antt =====
-- internal/ratelimit/ratelimit.go: the limiter in memory, and the budget of an address. The limiter
-- in memory returns no error, so what `AllowIP` does on one is left out. Each reading of the clock is an
-- argument.
pub mod Budget
pub mod Refusal
use cloistr_signer.Prelude.{
  ℕ, ◌+◌, ◌-◌, String, Bool, true, false, ◌&&◌, not, Option, none, some, List, [], ◌∷◌,
  if◌then◌else◌, ltb, leb, str_eq,
}
use Prim.Native.String.{◌++◌}
use cloistr_signer.Prelude.Dict.{Dict, lookup, insert, retain, size}
use cloistr_signer.Storage.Types.{Time}

pub record Window : Type 0 where
  pub count : ℕ
  pub expires_at : Time

abbrev pub Windows : Type 0
Windows = Dict Window

abbrev pub sweep_threshold : ℕ
sweep_threshold = 4096

-- The opportunistic sweep of `Allow`.
unfoldable pub sweep : Time → Windows → Windows
sweep now m =
    if ltb sweep_threshold (size m) then retain (λ _ w. not (ltb w.expires_at now)) m else m

abbrev pub new_window : Time → Time → Window
new_window now window = record { count = 1; expires_at = now + window }

unfoldable pub allow : Time → String → ℕ → Time → Windows → Windows × Bool
allow now key limit window m =
    let swept = sweep now m in
    elim (lookup key swept) [
      | none ↦ (insert key (new_window now window) swept, leb 1 limit)
      | some w ↦
          if ltb w.expires_at now
          then (insert key (new_window now window) swept, leb 1 limit)
          else (insert key (record w { count = w.count + 1 }) swept, leb (w.count + 1) limit)
    ]

abbrev pub count_of : Time → Option Window → ℕ
count_of now none = 0
count_of now (some w) = if ltb now w.expires_at then w.count else 0

unfoldable pub count : Time → String → Windows → ℕ
count now key m = count_of now (lookup key m)

unfoldable pub release : Time → String → Windows → Windows
release now key m = elim (lookup key m) [
  | none ↦ m
  | some w ↦
      if ltb now w.expires_at && ltb 0 w.count
      then insert key (record w { count = w.count - 1 }) m
      else m
]

-- `cur` and `prev` are the address's keys of `IPHasher.Keys`; the clock is read at the count of `prev`,
-- at the reservation and at its release.
unfoldable pub allow_ip :
    Time → Time → Time → String → String → String → ℕ → Time → Windows → Windows × Bool × String
allow_ip counted now released prefix cur prev limit window m =
    let used : ℕ = if not (str_eq prev "") then count counted (prefix ++ prev) m else 0 in
    if leb limit used
    then (m, false, "")
    else let (m', allowed) = allow now (prefix ++ cur) (limit - used) window m in
      if not allowed
      then (release released (prefix ++ cur) m', false, "")
      else (m', true, prefix ++ cur)
