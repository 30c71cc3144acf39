-- ===== src/Glasses/Storage/Kept.antt =====
-- storage.ts: what is saved is loaded again.
use erg.Prelude.{
  or_else-given, ap, ◌≡◌, ◌∙◌, Bool, false, none, some, Text, codes, arith, get-set, text_eq, trim,
  is_empty, if◌then◌else◌, or_else,
}
use erg.Glasses.Storage
use erg.Glasses.Storage.{
  Key, storage_key, get_local_storage, set_local_storage, StoredClientConfig,
  StoredDeviceRegistration, make_registration, load_stored_registration, save_stored_registration,
  save_stored_client_config, clear_stored_registration,
}

-- The keys are told apart by their texts.
abbrev same : Key → Key → Bool
same k j = text_eq (storage_key k) (storage_key j)

get-set_local :
    (k j : Key) (v : Text) (m : Storage.Storage)
    → get_local_storage (set_local_storage k v m) j
      ≡ (if same k j then v else get_local_storage m j)
unfolding get_local_storage set_local_storage
get-set_local k j v m = ground (arith, get-set m (storage_key k) v (storage_key j))

-- The five texts after a registration was saved.
module _ (r : StoredDeviceRegistration) (m : Storage.Storage) where
  saved :
      (c : StoredClientConfig)
      → load_stored_registration (save_stored_client_config c (save_stored_registration r m))
        ≡ make_registration r.relay_base_url r.device_id r.refresh_token r.device_display_name
            r.default_conversation_id
  unfolding load_stored_registration save_stored_client_config save_stored_registration text_eq
  saved c = simp get-set_local

-- A registration whose texts have no white space around them, and are not empty.
abbrev pub IsPlain : Text → Type 0
IsPlain t = (trim t ≡ t) × (is_empty t ≡ false)

pub record IsPlainRegistration (r : StoredDeviceRegistration) : Type 0 where
  pub url : IsPlain r.relay_base_url
  pub device : IsPlain r.device_id
  pub token : IsPlain r.refresh_token
  pub name : IsPlain r.device_display_name
  pub conversation : IsPlain r.default_conversation_id

or_else-plain : (t d : Text) → IsPlain t → or_else (trim t) d ≡ t
or_else-plain t d h = ap (λ (x : Text). or_else x d) h.0 ∙ or_else-given t d h.1

make_registration-plain :
    (r : StoredDeviceRegistration)
    → IsPlainRegistration r
    → make_registration r.relay_base_url r.device_id r.refresh_token r.device_display_name
        r.default_conversation_id
      ≡ some r
unfolding make_registration
make_registration-plain r h = ground (
  arith,
  h.url.0,
  h.url.1,
  h.device.0,
  h.device.1,
  h.token.0,
  h.token.1,
  or_else-plain r.device_display_name (codes "Even Hub device") h.name,
  or_else-plain r.default_conversation_id (codes "default") h.conversation,
)

cleared :
    (c : StoredClientConfig) (m : Storage.Storage)
    → load_stored_registration (save_stored_client_config c (clear_stored_registration m)) ≡ none
unfolding load_stored_registration clear_stored_registration save_stored_client_config text_eq
    make_registration trim
cleared c m = simp get-set_local

-- A registration that is saved is loaded again, whatever settings are saved after it, and once it is
-- cleared none is loaded.
pub load-save-clear :
    (r : StoredDeviceRegistration) (c : StoredClientConfig) (m : Storage.Storage)
    → IsPlainRegistration r
    → (load_stored_registration (save_stored_client_config c (save_stored_registration r m))
        ≡ some r)
      × (load_stored_registration
            (save_stored_client_config c (clear_stored_registration (save_stored_registration r m)))
          ≡ none)
load-save-clear r c m h =
    (saved r m c ∙ make_registration-plain r h, cleared c (save_stored_registration r m))
