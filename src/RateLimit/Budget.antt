-- ===== src/RateLimit/Budget.antt =====
-- How many reservations a key gets out of one window.
use cloistr_signer.Prelude.{
  ℕ, suc, ◌+◌, ◌-◌, ◌≤◌, ◌<◌, String, true, false, ◌&&◌, not, some, List, [], ◌∷◌, ◌≡◌, refl, arith,
  eq_iff, eq_refl, Bool-cases, Option-cases, inl, inr, if◌then◌else◌, ltb, leb, least, str_eq,
}
use cloistr_signer.Prelude.Dict.{lookup, insert, lookup-insert, lookup-insert_self, lookup-retain}
use cloistr_signer.Storage.Types.{Time}
use cloistr_signer.RateLimit.{Window, Windows, sweep, new_window, allow, release}

-- The sweep leaves a window that has not expired.
pub sweep_kept :
    (now : Time) (key : String) (m : Windows) (w : Window)
    → lookup key m ≡ some w
    → now ≤ w.expires_at
    → lookup key (sweep now m) ≡ some w
unfolding sweep
sweep_kept now key m w found le =
    ground (arith, found, lookup-retain (λ _ w. not (ltb w.expires_at now)) key m)

-- What the sweep leaves was there.
pub sweep_old :
    (now : Time) (key : String) (m : Windows) (w : Window)
    → lookup key (sweep now m) ≡ some w
    → lookup key m ≡ some w
unfolding sweep
sweep_old now key m w found = elim (Option-cases (lookup key m)) [
  | inl absent ↦ absurd (
      let e = found in
      ground (arith, absent, lookup-retain (λ _ w. not (ltb w.expires_at now)) key m))
  | inr (v, is) ↦ ground (arith, is, found, lookup-retain (λ _ w. not (ltb w.expires_at now)) key m)
]

pub data LimiterCall : Type 0 where
  reserve : Time → String → ℕ → Time → LimiterCall
  give_back : Time → String → LimiterCall

-- The reservations that `key` gets.
unfoldable pub granted : String → List LimiterCall → Windows → ℕ
granted key [] m = 0
granted key (reserve now k limit window ∷ cs) m =
    let (m', ok) = allow now k limit window m in
    let rest = granted key cs m' in if str_eq k key && ok then suc rest else rest
granted key (give_back now k ∷ cs) m = granted key cs (release now k m)

abbrev pub requests : String → List LimiterCall → ℕ
requests key [] = 0
requests key (reserve now k limit window ∷ cs) =
    let rest = requests key cs in if str_eq k key then suc rest else rest
requests key (give_back now k ∷ cs) = requests key cs

-- Every reservation is made by `end`, those of `key` under `limit`, and `key` gives none back.
abbrev pub IsWithin : Time → String → ℕ → List LimiterCall → Type 0
IsWithin end key limit [] = Unit
IsWithin end key limit (reserve now k l window ∷ cs) =
    (now ≤ end) × (str_eq k key ≡ true → l ≡ limit) × IsWithin end key limit cs
IsWithin end key limit (give_back now k ∷ cs) = (str_eq k key ≡ false) × IsWithin end key limit cs

module _ (key : String) (w : Window) (m : Windows) (found : lookup key m ≡ some w) where
  pub allow_live :
      (now : Time) (limit : ℕ) (window : Time)
      → now ≤ w.expires_at
      → allow now key limit window m
        ≡ (insert key (record w { count = w.count + 1 }) (sweep now m), leb (w.count + 1) limit)
  unfolding allow
  allow_live now limit window le = rw (sweep_kept now key m w found le, allow) (ground arith)

  allow_other :
      (now : Time) (k : String) (limit : ℕ) (window : Time)
      → str_eq k key ≡ false
      → now ≤ w.expires_at
      → lookup key (allow now k limit window m).0 ≡ some w
  unfolding allow
  allow_other now k limit window ne le =
      let kept = sweep_kept now key m w found le in
      elim (Option-cases (lookup k (sweep now m))) [
        | inl absent ↦
            rw (absent, allow)
              (ground (arith, lookup-insert k key (new_window now window) (sweep now m)))
        | inr (v, is) ↦
            rw (is, allow)
              (ground (
                arith,
                lookup-insert k key (new_window now window) (sweep now m),
                lookup-insert k key (record v { count = v.count + 1 }) (sweep now m),
              ))
      ]

  release_other :
      (now : Time) (k : String) → str_eq k key ≡ false → lookup key (release now k m) ≡ some w
  unfolding release
  release_other now k ne = elim (Option-cases (lookup k m)) [
    | inl absent ↦ rw (absent, release) found
    | inr (v, is) ↦
        rw (is, release) (ground (arith, lookup-insert k key (record v { count = v.count - 1 }) m))
  ]

-- A key with no window, or an expired one, gets a new window.
pub allow_fresh :
    (key : String) (now : Time) (limit : ℕ) (window : Time) (m : Windows)
    → ((w : Window) → lookup key m ≡ some w → w.expires_at < now)
    → allow now key limit window m ≡ (insert key (new_window now window) (sweep now m), leb 1 limit)
unfolding allow
allow_fresh key now limit window m fresh = elim (Option-cases (lookup key (sweep now m))) [
  | inl absent ↦ rw (absent, allow)
  | inr (w, is) ↦
      let dead : w.expires_at < now = fresh w (sweep_old now key m w is) in
      rw (is, allow) (ground (arith, dead))
]

module _ (key : String) (limit : ℕ) (window : Time) (cs : List LimiterCall) where
  granted_next :
      (now : Time) (m : Windows) (w : Window)
      → lookup key m ≡ some w
      → now ≤ w.expires_at
      → granted key cs (insert key (record w { count = w.count + 1 }) (sweep now m))
        ≡ least (requests key cs) (limit - (w.count + 1))
      → granted key (reserve now key limit window ∷ cs) m
        ≡ least (suc (requests key cs)) (limit - w.count)
  unfolding granted
  granted_next now m w found le h =
      rw (allow_live key w m found now limit window le, eq_refl key) (ground (arith, h))

  granted_first :
      (now : Time) (m : Windows)
      → ((w : Window) → lookup key m ≡ some w → w.expires_at < now)
      → granted key cs (insert key (new_window now window) (sweep now m))
        ≡ least (requests key cs) (limit - 1)
      → granted key (reserve now key limit window ∷ cs) m ≡ least (suc (requests key cs)) limit
  unfolding granted
  granted_first now m fresh h =
      rw (allow_fresh key now limit window m fresh, eq_refl key) (ground (arith, h))

granted_live :
    (key : String) (limit : ℕ) (end : Time) (cs : List LimiterCall) (m : Windows) (w : Window)
    → lookup key m ≡ some w
    → w.expires_at ≡ end
    → IsWithin end key limit cs
    → granted key cs m ≡ least (requests key cs) (limit - w.count)
unfolding granted
granted_live key limit end [] m w found e q = ground arith
granted_live key limit end (reserve now k l window ∷ cs) m w found e q =
    elim (Bool-cases (str_eq k key)) [
      | inr other ↦ rw other (
          granted_live key limit end cs (allow now k l window m).0 w
            (allow_other key w m found now k l window other (rw e (q.0))) e q.2)
      | inl same ↦
          let counted : Window = record w { count = w.count + 1 } in
          let ek : k ≡ key = (eq_iff k key).0 same in
          let next = granted_next key limit window cs now m w found (rw e (q.0)) (
            granted_live key limit end cs (insert key counted (sweep now m)) counted
              (lookup-insert_self key counted (sweep now m)) e q.2) in
          rw (ek, q.1 same) (rw (eq_refl key) (let n = next in rw (eq_refl key) at n))
    ]
granted_live key limit end (give_back now k ∷ cs) m w found e q =
    granted_live key limit end cs (release now k m) w (release_other key w m found now k q.0) e q.1

-- From a reservation that opens a window of `key` up to the window's end, while any calls are made on
-- other keys and `key` gives nothing back, `key` is granted as many of its reservations under `limit`
-- as it asks for, but `limit` at most.
pub granted-reserve :
    (key : String) (limit : ℕ) (now window : Time) (cs : List LimiterCall) (m : Windows)
    → ((w : Window) → lookup key m ≡ some w → w.expires_at < now)
    → IsWithin (now + window) key limit cs
    → granted key (reserve now key limit window ∷ cs) m
      ≡ least (requests key (reserve now key limit window ∷ cs)) limit
granted-reserve key limit now window cs m fresh within = rw (eq_refl key) (
    granted_first key limit window cs now m fresh (
      granted_live key limit (now + window) cs (insert key (new_window now window) (sweep now m))
        (new_window now window) (lookup-insert_self key (new_window now window) (sweep now m)) refl
        within))
