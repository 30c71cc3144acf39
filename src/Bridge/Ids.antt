-- ===== src/Bridge/Ids.antt =====
-- bridge/src/ids.ts. The bytes that `randomBytes` draws are an argument.
use erg.Prelude.{
  ℕ, ◌+◌, ◌-◌, ◌/◌, ◌%◌, List, [], ◌∷◌, ◌++◌, map, Text, codes, length, take, drop, ltb,
  if◌then◌else◌,
}

abbrev pub Bytes : Type 0
Bytes = List ℕ

unfoldable pub hex_digit : ℕ → ℕ
hex_digit n = if ltb n 10 then b'0' + n else b'a' + n - 10

-- `toString("hex")`
unfoldable pub to_hex : Bytes → Text
unfolding hex_digit
to_hex [] = []
to_hex (b ∷ bs) = hex_digit (b / 16) ∷ hex_digit (b % 16) ∷ to_hex bs

-- `createId` draws 10 bytes and `createOpaqueToken` 16; the texts are built alike.
unfoldable pub create_id : Text → Bytes → Text
unfolding to_hex
create_id prefix bytes = prefix ++ codes "_" ++ to_hex bytes

unfoldable pub create_opaque_token : Text → Bytes → Text
unfolding to_hex
create_opaque_token prefix bytes = prefix ++ codes "_" ++ to_hex bytes

abbrev pub crockford_base32 : Text
crockford_base32 = codes "ABCDEFGHJKLMNPQRSTUVWXYZ23456789"

abbrev pub char_at : Text → ℕ → ℕ
char_at [] i = 0
char_at (c ∷ s) ℕ.zero = c
char_at (c ∷ s) (ℕ.suc i) = char_at s i

-- One character of a code; the remainder is a position of the alphabet.
unfoldable pub code_char : ℕ → ℕ
code_char byte = char_at crockford_base32 (byte % length crockford_base32)

-- The eight draws of the loop, and the two halves joined by a dash.
unfoldable pub create_pairing_code : Bytes → Text
unfolding code_char
create_pairing_code bytes =
    let characters = map code_char (take 8 bytes) in
    take 4 characters ++ codes "-" ++ drop 4 characters
