-- ===== src/Mobile/PairingForm/Agrees.antt =====
-- validation.ts and services.ts: the form of the phone and the bridge judge a code alike.
use erg.Prelude.{ℕ, ◌<◌}

abbrev pub IsAscii : ℕ → Type 0
IsAscii c = c < 128
