-- ===== src/Bridge/Services/Pairing/Codes.antt =====
-- The pairing codes of bridge/src/ids.ts against the checks of services.ts.
use erg.Prelude.{
  ℕ, zero, suc, ◌%◌, ◌<◌, All, length, ◌≡◌, refl, Bool, true, false, ◌&&◌, ◌||◌, none, [], ◌∷◌,
  Text, arith, is_space, trim, trim_start, trim_end, upper, to_upper, leb, ◌==◌,
}
use erg.Bridge.Ids.{Bytes, crockford_base32, char_at, code_char, create_pairing_code}
use erg.Bridge.Services.Pairing.{
  normalize_pairing_code, validate_pairing_code_input, is_code_char, looks_like_url,
  starts_with_ignore_case, parts, matches, is_pairing_code,
}

-- A capital letter or a digit.
abbrev is_capital : ℕ → Bool
is_capital c = (leb b'A' c && leb c b'Z') || (leb b'0' c && leb c b'9')

abbrev IsCapital : ℕ → Type 0
IsCapital c = is_capital c ≡ true

-- What holds of every character of an alphabet holds of the one at a position inside it.
All-char_at :
    (P : ℕ → Type 0) (alphabet : Text) (i : ℕ)
    → All P alphabet
    → i < length alphabet
    → P (char_at alphabet i)
All-char_at P [] i all inside = absurd (omega arith)
All-char_at P (c ∷ s) zero (here, rest) inside = here
All-char_at P (c ∷ s) (suc i) (here, rest) inside = All-char_at P s i rest (omega arith)

alphabet-IsCapital : All IsCapital crockford_base32
alphabet-IsCapital = (
  refl,
  (
    refl,
    (
      refl,
      (
        refl,
        (
          refl,
          (
            refl,
            (
              refl,
              (
                refl,
                (
                  refl,
                  (
                    refl,
                    (
                      refl,
                      (
                        refl,
                        (
                          refl,
                          (
                            refl,
                            (
                              refl,
                              (
                                refl,
                                (
                                  refl,
                                  (
                                    refl,
                                    (
                                      refl,
                                      (
                                        refl,
                                        (
                                          refl,
                                          (
                                            refl,
                                            (
                                              refl,
                                              (
                                                refl,
                                                (
                                                  refl,
                                                  (
                                                    refl,
                                                    (
                                                      refl,
                                                      (refl, (refl, (refl, (refl, (refl, tt))))),
                                                    ),
                                                  ),
                                                ),
                                              ),
                                            ),
                                          ),
                                        ),
                                      ),
                                    ),
                                  ),
                                ),
                              ),
                            ),
                          ),
                        ),
                      ),
                    ),
                  ),
                ),
              ),
            ),
          ),
        ),
      ),
    ),
  ),
)

code_char-capital : (b : ℕ) → is_capital (code_char b) ≡ true
unfolding code_char
code_char-capital b =
    All-char_at IsCapital crockford_base32 (b % 32) alphabet-IsCapital (omega arith)

module _ (c : ℕ) (h : is_capital c ≡ true) where
  capital-is_space : is_space c ≡ false
  unfolding is_space
  capital-is_space = ground arith

  capital-upper : upper c ≡ c
  unfolding upper
  capital-upper = ground arith

  capital-is_code_char : is_code_char c ≡ true
  unfolding is_code_char
  capital-is_code_char = ground arith

  capital-ne : ((c == b'.') ≡ false) × ((c == b':') ≡ false)
  capital-ne = ground arith

-- Eight capitals or digits in two groups.
pub record IsCode (a b c d e f g i : ℕ) : Type 0 where
  pub first :
      (is_capital a ≡ true) × (is_capital b ≡ true) × (is_capital c ≡ true) × (is_capital d ≡ true)
  pub second :
      (is_capital e ≡ true) × (is_capital f ≡ true) × (is_capital g ≡ true) × (is_capital i ≡ true)

module _ (a b c d e f g i : ℕ) (k : IsCode a b c d e f g i) where
  abbrev pub code : Text
  code = a ∷ b ∷ c ∷ d ∷ b'-' ∷ e ∷ f ∷ g ∷ i ∷ []

  trim-code : trim code ≡ code
  unfolding trim trim_start trim_end
  trim-code = ground (arith, capital-is_space a k.first.0, capital-is_space i k.second.3)

  to_upper-code : to_upper code ≡ code
  unfolding to_upper
  to_upper-code = cc (
    capital-upper a k.first.0,
    capital-upper b k.first.1,
    capital-upper c k.first.2,
    capital-upper d k.first.3,
    capital-upper e k.second.0,
    capital-upper f k.second.1,
    capital-upper g k.second.2,
    capital-upper i k.second.3,
  )

  looks_like_url-code : looks_like_url code ≡ false
  unfolding looks_like_url starts_with_ignore_case upper
  looks_like_url-code = ground (arith, capital-ne c k.first.2, capital-ne d k.first.3)

  parts-code : parts code ≡ 1
  unfolding parts
  parts-code = ground (
    arith,
    capital-ne a k.first.0,
    capital-ne b k.first.1,
    capital-ne c k.first.2,
    capital-ne d k.first.3,
    capital-ne e k.second.0,
    capital-ne f k.second.1,
    capital-ne g k.second.2,
    capital-ne i k.second.3,
  )

  is_pairing_code-code : is_pairing_code code ≡ true
  unfolding is_pairing_code matches
  is_pairing_code-code = ground (
    arith,
    capital-is_code_char a k.first.0,
    capital-is_code_char b k.first.1,
    capital-is_code_char c k.first.2,
    capital-is_code_char d k.first.3,
    capital-is_code_char e k.second.0,
    capital-is_code_char f k.second.1,
    capital-is_code_char g k.second.2,
    capital-is_code_char i k.second.3,
  )

  pub code-valid : (validate_pairing_code_input code ≡ none) × (normalize_pairing_code code ≡ code)
  unfolding validate_pairing_code_input normalize_pairing_code
  code-valid = (
    rw trim-code (rw (looks_like_url-code, parts-code, is_pairing_code-code) refl),
    rw (trim-code, to_upper-code) refl,
  )

module _ (a b c d e f g i : ℕ) where
  abbrev pub eight : Bytes
  eight = a ∷ b ∷ c ∷ d ∷ e ∷ f ∷ g ∷ i ∷ []

  -- Every code that `createPairingCode` makes of eight random bytes passes the check, and
  -- normalising it leaves it as it is.
  pub create_pairing_code-valid :
      (validate_pairing_code_input (create_pairing_code eight) ≡ none)
      × (normalize_pairing_code (create_pairing_code eight) ≡ create_pairing_code eight)
  unfolding create_pairing_code
  create_pairing_code-valid =
      code-valid (code_char a) (code_char b) (code_char c) (code_char d) (code_char e) (code_char f)
        (code_char g) (code_char i)
        (record {
          first =
              (code_char-capital a, code_char-capital b, code_char-capital c, code_char-capital d);
          second =
              (code_char-capital e, code_char-capital f, code_char-capital g, code_char-capital i);
        })
