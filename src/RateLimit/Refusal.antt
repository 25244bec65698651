-- ===== src/RateLimit/Refusal.antt =====
-- A refused address spends nothing.
use cloistr_signer.Prelude.{
  ℕ, ◌+◌, ◌-◌, ◌≤◌, ◌<◌, String, false, not, Option, none, some, ◌≡◌, refl, sym, ap, ◌∙◌, arith,
  eq_iff, Bool-cases, Option-cases, inl, inr, ◌⊎◌, if◌then◌else◌, leb, str_eq,
}
use Prim.Native.String.{◌++◌}
use cloistr_signer.Prelude.Dict.{lookup, insert, lookup-insert, lookup-insert_self}
use cloistr_signer.Storage.Types.{Time}
use cloistr_signer.RateLimit.{Window, Windows, sweep, allow, release, count, count_of, allow_ip}
use cloistr_signer.RateLimit.Budget.{sweep_kept, sweep_old, allow_live, allow_fresh}

-- No key's count differs at `now` or later.
abbrev pub IsUnspent : Time → Windows → Windows → Type 0
IsUnspent now m m' = (t : Time) (k : String) → now ≤ t → count t k m' ≡ count t k m

count_at :
    (t : Time) (k : String) (m m' : Windows) (o o' : Option Window)
    → lookup k m ≡ o
    → lookup k m' ≡ o'
    → count_of t o' ≡ count_of t o
    → count t k m' ≡ count t k m
unfolding count
count_at t k m m' o o' e e' same = ap (count_of t) e' ∙ same ∙ ap (count_of t) (sym e)

sweep-IsUnspent : (now : Time) (m : Windows) → IsUnspent now m (sweep now m)
sweep-IsUnspent now m t k le = elim (Option-cases (lookup k (sweep now m))) [
  | inr (w, is) ↦ count_at t k m (sweep now m) (some w) (some w) (sweep_old now k m w is) is refl
  | inl absent ↦ elim (Option-cases (lookup k m)) [
    | inl none_ ↦ count_at t k m (sweep now m) none none none_ absent refl
    | inr (w, is) ↦ elim (Bool-cases (leb now w.expires_at)) [
      | inl alive ↦ absurd (let e = sweep_kept now k m w is (ground arith) in cc)
      | inr dead ↦ count_at t k m (sweep now m) (some w) none is absent (ground arith)
    ]
  ]
]

release_back :
    (released : Time) (key : String) (w : Window) (m : Windows)
    → released < w.expires_at
    → release released key (insert key (record w { count = w.count + 1 }) m)
      ≡ insert key w (insert key (record w { count = w.count + 1 }) m)
unfolding release
release_back released key w m le =
    rw (lookup-insert_self key (record w { count = w.count + 1 }) m, release) (ground arith)

restored-IsUnspent :
    (now : Time) (key : String) (w v : Window) (m : Windows)
    → lookup key m ≡ some w
    → IsUnspent now m (insert key w (insert key v (sweep now m)))
restored-IsUnspent now key w v m found t k le = elim (Bool-cases (str_eq key k)) [
  | inl same ↦
      let ek : key ≡ k = (eq_iff key k).0 same in
      count_at t k m (insert key w (insert key v (sweep now m))) (some w) (some w) (rw (← ek) found)
        (rw (← ek) (lookup-insert_self key w (insert key v (sweep now m)))) refl
  | inr other ↦
      count_at t k (sweep now m) (insert key w (insert key v (sweep now m)))
        (lookup k (sweep now m)) (lookup k (sweep now m)) refl
        (rw (lookup-insert key k w (insert key v (sweep now m)), other)
          (rw (lookup-insert key k v (sweep now m), other) refl))
        refl
      ∙ sweep-IsUnspent now m t k le
]

-- A reservation that is refused was made in an open window, and its release restores the count.
refused-IsUnspent :
    (now released : Time) (key : String) (limit : ℕ) (window : Time) (m : Windows)
    → 0 < limit
    → ((w : Window) → lookup key m ≡ some w → now ≤ w.expires_at → released < w.expires_at)
    → (allow now key limit window m).1 ≡ false
    → IsUnspent now m (release released key (allow now key limit window m).0)
refused-IsUnspent now released key limit window m pos in_window refused =
    elim (Option-cases (lookup key m)) [
      | inl absent ↦ absurd (granted_absurd (λ w is. absurd (cc)))
      | inr (w, found) ↦ elim (Bool-cases (leb now w.expires_at)) [
        | inl alive ↦ rw (allow_live key w m found now limit window (ground arith)) (
            rw (release_back released key w (sweep now m) (in_window w found (ground arith)))
              (restored-IsUnspent now key w (record w { count = w.count + 1 }) m found))
        | inr dead ↦
            absurd (granted_absurd (λ v is. let same : w ≡ v = cc in rw (← same) (ground arith)))
      ]
    ]
  where
    granted_absurd : ((w : Window) → lookup key m ≡ some w → w.expires_at < now) → ⊥
    granted_absurd fresh =
        let h = refused in
        let e = allow_fresh key now limit window m fresh in
        let h' : leb 1 limit ≡ false = ap (λ r. r.1) (sym e) ∙ h in ground arith

allow_ip-cases :
    (counted now released : Time) (prefix cur prev : String) (limit : ℕ) (window : Time)
    (m : Windows)
    → (allow_ip counted now released prefix cur prev limit window m).1 ≡ false
    → ((allow_ip counted now released prefix cur prev limit window m).0 ≡ m)
      ⊎ ((left : ℕ) × (0 < left)
          × ((allow now (prefix ++ cur) left window m).1 ≡ false)
          × ((allow_ip counted now released prefix cur prev limit window m).0
              ≡ release released (prefix ++ cur) (allow now (prefix ++ cur) left window m).0))
unfolding allow_ip
allow_ip-cases counted now released prefix cur prev limit window m refused =
    let used : ℕ = if not (str_eq prev "") then count counted (prefix ++ prev) m else 0 in
    elim (Bool-cases (leb limit used)) [
      | inl spent ↦ inl (rw spent refl)
      | inr left ↦ elim (Bool-cases (allow now (prefix ++ cur) (limit - used) window m).1) [
        | inl granted ↦ absurd (let h = refused in ground (arith, left, granted))
        | inr full ↦ inr (limit - used, (ground arith), full, ground (arith, left, full))
      ]
    ]

-- `AllowIP` that refuses an address spends nothing: every key has the count that it had, from the
-- attempt on. If the address's own window is open at the attempt, it must be so at the release too.
pub allow_ip_refused :
    (counted now released : Time) (prefix cur prev : String) (limit : ℕ) (window : Time)
    (m : Windows) (t : Time) (k : String)
    → ((w : Window)
        → lookup (prefix ++ cur) m ≡ some w
        → now ≤ w.expires_at
        → released < w.expires_at)
    → (allow_ip counted now released prefix cur prev limit window m).1 ≡ false
    → now ≤ t
    → count t k (allow_ip counted now released prefix cur prev limit window m).0 ≡ count t k m
allow_ip_refused counted now released prefix cur prev limit window m t k in_window refused le =
    elim (allow_ip-cases counted now released prefix cur prev limit window m refused) [
      | inl same ↦ ap (count t k) same
      | inr (left, pos, full, is) ↦
          ap (count t k) is
          ∙ refused-IsUnspent now released (prefix ++ cur) left window m pos in_window full t k le
    ]
