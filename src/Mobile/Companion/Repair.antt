-- ===== src/Mobile/Companion/Repair.antt =====
-- mobile/src/repair.ts: what the code of an error calls for.
use erg.Prelude.{Bool, false, ◌||◌, Option, none, some, Text, codes, text_eq, if◌then◌else◌}

pub data RepairAction : Type 0 where
  reconnect refresh_session re_pair : RepairAction

pub record RepairState : Type 0 where
  pub message : Text
  pub recommended_action : RepairAction

abbrev is_code : Option Text → Text → Bool
is_code none code = false
is_code (some c) code = text_eq c code

unfoldable pub derive_repair_state : Option Text → RepairState
unfolding text_eq
derive_repair_state code =
    if is_code code (codes "device_revoked")
      || is_code code (codes "device_inactive")
      || is_code code (codes "refresh_reuse_detected")
    then record {
      message = codes "This device must be re-paired before it can reconnect.";
      recommended_action = re_pair;
    }
    else if is_code code (codes "access_invalid") || is_code code (codes "auth_expired")
    then record {
      message = codes "The session expired and should be refreshed before reconnecting.";
      recommended_action = refresh_session;
    }
    else record {
      message = codes "The connection dropped and should be retried with backoff.";
      recommended_action = reconnect;
    }
