-- ===== src/Signer/Authorize/Methods.antt =====
-- The method test against what it means: the method itself, "*" or "all" is listed.
use mathlib.Core.List.{Memᴰ}
use cloistr_signer.Prelude.{
  String, Bool, true, List, [], ◌∷◌, ◌≡◌, refl, arith, eq_iff, Bool-cases, inl, inr, ◌⊎◌, ◌↔◌,
  str_eq, ◌||◌,
}
use cloistr_signer.Storage.Types.{Permission}
use cloistr_signer.Signer.Authorize.{allows_method, is_method_allowed}

-- Some listed method covers the one that is asked for.
abbrev pub Permits : List String → String → Type 0
Permits methods method = (m : String) × Memᴰ m methods × ((m ≡ method) ⊎ (m ≡ "*") ⊎ (m ≡ "all"))

covers : String → String → Bool
covers method m = str_eq m method || str_eq m "*" || str_eq m "all"

covers_sound : (method m : String) → covers method m ≡ true → (m ≡ method) ⊎ (m ≡ "*") ⊎ (m ≡ "all")
unfolding covers
covers_sound method m h = ground (arith, eq_iff m method, eq_iff m "*", eq_iff m "all")

covers_complete :
    (method m : String) → (m ≡ method) ⊎ (m ≡ "*") ⊎ (m ≡ "all") → covers method m ≡ true
unfolding covers
covers_complete method m h = ground (arith, eq_iff m method, eq_iff m "*", eq_iff m "all")

allows_method_sound :
    (method : String) (ms : List String) → allows_method method ms ≡ true → Permits ms method
unfolding allows_method covers
allows_method_sound method [] h = absurd (cc)
allows_method_sound method (m ∷ ms) h = elim (Bool-cases (covers method m)) [
  | inl hit ↦ (m, Memᴰ.head refl, covers_sound method m hit)
  | inr miss ↦
      let (x, later, is) = allows_method_sound method ms (let e = h in rw miss at e) in
      (x, Memᴰ.tail later, is)
]

allows_method_complete :
    (method m : String) (ms : List String)
    → Memᴰ m ms
    → (m ≡ method) ⊎ (m ≡ "*") ⊎ (m ≡ "all")
    → allows_method method ms ≡ true
unfolding allows_method covers
allows_method_complete method m [] here is = elim here [ ]
allows_method_complete method m (x ∷ xs) (Memᴰ.head e) is =
    let hit : covers method x ≡ true = rw (← e) (covers_complete method m is) in ground arith
allows_method_complete method m (x ∷ xs) (Memᴰ.tail later) is =
    ground (arith, allows_method_complete method m xs later is)

-- `isMethodAllowed` holds exactly if the grant lists the method, "*" or "all".
pub is_method_allowed_iff :
    (perm : Permission) (method : String)
    → (is_method_allowed perm method ≡ true) ↔ Permits perm.methods method
unfolding is_method_allowed
is_method_allowed_iff perm method = (
  allows_method_sound method perm.methods,
  λ (m, here, is). allows_method_complete method m perm.methods here is,
)
