-- ===== src/Mobile/Companion/Storage.antt =====
-- secure-storage.ts: a registration that is saved is loaded again.
use erg.Prelude.{or_else-given, text_eq, ◌≡◌, refl, false, some, is_empty, arith, codes}
use erg.Bridge.State.{ClientType, mobile, even_hub}
use erg.Mobile.Companion.{DeviceRegistration, load, save, stored_client_type, client_type_text}

-- A registration of a device that was paired.
pub record IsComplete (r : DeviceRegistration) : Type 0 where
  pub url : is_empty r.relay_base_url ≡ false
  pub device : is_empty r.device_id ≡ false
  pub token : is_empty r.refresh_token ≡ false
  pub name : is_empty r.device_display_name ≡ false
  pub conversation : is_empty r.default_conversation_id ≡ false

client_type-stored : (t : ClientType) → stored_client_type (client_type_text t) ≡ t
unfolding text_eq
client_type-stored mobile = refl
client_type-stored even_hub = refl

-- Loading what was saved gives the registration back.
pub load-save : (r : DeviceRegistration) → IsComplete r → load (some (save r)) ≡ some r
unfolding load save
load-save r h = ground (
  arith,
  h.url,
  h.device,
  h.token,
  or_else-given r.device_display_name (codes "OpenClaw mobile") h.name,
  or_else-given r.default_conversation_id (codes "default") h.conversation,
  client_type-stored r.client_type,
)
