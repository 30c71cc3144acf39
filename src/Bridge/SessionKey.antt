-- ===== src/Bridge/SessionKey.antt =====
-- bridge/src/session-key.ts
use erg.Prelude.{ℕ, Bool, ◌&&◌, ◌||◌, Text, codes, ◌++◌, filter, take, trim, or_else, leb, ◌==◌}

-- The class [a-zA-Z0-9._:-].
unfoldable pub is_segment_char : ℕ → Bool
is_segment_char c =
    (leb b'a' c && leb c b'z')
    || (leb b'A' c && leb c b'Z')
    || (leb b'0' c && leb c b'9')
    || (c == b'.')
    || (c == b'_')
    || (c == b':')
    || (c == b'-')

unfoldable pub normalize_token_segment : Text → Text
unfolding is_segment_char trim
normalize_token_segment value = take 128 (filter is_segment_char (trim value))

unfoldable pub normalize_conversation_id : Text → Text
unfolding normalize_token_segment
normalize_conversation_id value = or_else (normalize_token_segment value) (codes "default")

unfoldable pub build_mobile_session_key : Text → Text → Text
unfolding normalize_token_segment normalize_conversation_id
build_mobile_session_key device_id conversation_id =
    codes "mobile:"
    ++ normalize_token_segment device_id
    ++ codes ":conversation:"
    ++ normalize_conversation_id conversation_id
