-- ===== src/Storage/Passkeys/Hex.antt =====
-- The text under which a passkey is stored gives its credential id back.
use Prim.Native.Nat.{◌/◌, ◌%◌}
use Prim.Native.Char.{Char, code}
use Prim.Native.String.{[] as nil, ◌∷◌ as ◌◂◌}
use cloistr_signer.Prelude.{
  ℕ, zero, suc, ◌+◌, ◌-◌, ◌*◌, ◌<◌, String, List, [], ◌∷◌, ◌≡◌, refl, arith, if◌then◌else◌, ltb,
}
use cloistr_signer.Storage.Passkeys.{hex_digit, cred_key}

abbrev pub AllBytes : List ℕ → Type 0
AllBytes [] = Unit
AllBytes (c ∷ b) = (c < 256) × AllBytes b

-- The value of a lower-case hexadecimal digit.
abbrev digit_value : Char → ℕ
digit_value c = if ltb (code c) 97 then code c - 48 else code c - 87

-- The bytes that two digits each stand for.
unfoldable pub decode_key : String → List ℕ
decode_key nil = []
decode_key (h ◂ nil) = []
decode_key (h ◂ (l ◂ s)) = (digit_value h * 16 + digit_value l) ∷ decode_key s

digit_value-hex_digit : (i : ℕ) → i < 16 → digit_value (hex_digit i) ≡ i
unfolding hex_digit
digit_value-hex_digit zero h = refl
digit_value-hex_digit (suc zero) h = refl
digit_value-hex_digit (suc (suc zero)) h = refl
digit_value-hex_digit (suc (suc (suc zero))) h = refl
digit_value-hex_digit (suc (suc (suc (suc zero)))) h = refl
digit_value-hex_digit (suc (suc (suc (suc (suc zero))))) h = refl
digit_value-hex_digit (suc (suc (suc (suc (suc (suc zero)))))) h = refl
digit_value-hex_digit (suc (suc (suc (suc (suc (suc (suc zero))))))) h = refl
digit_value-hex_digit (suc (suc (suc (suc (suc (suc (suc (suc zero)))))))) h = refl
digit_value-hex_digit (suc (suc (suc (suc (suc (suc (suc (suc (suc zero))))))))) h = refl
digit_value-hex_digit (suc (suc (suc (suc (suc (suc (suc (suc (suc (suc zero)))))))))) h = refl
digit_value-hex_digit (suc (suc (suc (suc (suc (suc (suc (suc (suc (suc (suc zero))))))))))) h =
    refl
digit_value-hex_digit (suc (suc (suc (suc (suc (suc (suc (suc (suc (suc (suc (suc zero))))))))))))
      h =
    refl
digit_value-hex_digit
      (suc (suc (suc (suc (suc (suc (suc (suc (suc (suc (suc (suc (suc zero))))))))))))) h =
    refl
digit_value-hex_digit
      (suc (suc (suc (suc (suc (suc (suc (suc (suc (suc (suc (suc (suc (suc zero)))))))))))))) h =
    refl
digit_value-hex_digit
      (suc (suc (suc (suc (suc (suc (suc (suc (suc (suc (suc (suc (suc (suc (suc zero)))))))))))))))
      h =
    refl
digit_value-hex_digit
      (suc
        (suc (suc (suc (suc (suc (suc (suc (suc (suc (suc (suc (suc (suc (suc (suc n))))))))))))))))
      h =
    absurd (omega arith)

-- Reading the digits of `credKey` two by two gives the credential id back, so no two credential ids are
-- stored under one text.
pub decode_key-cred_key : (b : List ℕ) → AllBytes b → decode_key (cred_key b) ≡ b
unfolding cred_key decode_key
decode_key-cred_key [] all = refl
decode_key-cred_key (c ∷ b) (byte, all) =
    let high = digit_value-hex_digit (c / 16) (omega arith) in
    let low = digit_value-hex_digit (c % 16) (omega arith) in
    let e : c / 16 * 16 + c % 16 ≡ c = omega arith in
    rw (high, low) (rw (e, decode_key-cred_key b all) refl)
