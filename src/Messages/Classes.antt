-- ===== src/Messages/Classes.antt =====
-- The classes of src/messages and their properties, which moc lists in the order of their
-- declaration, those of the base class first.
use qt_data_sync.Common.{
  ℕ, Bool, String, Option, none, some, List, [], ◌∷◌, ◌++◌, ◌≡◌, refl, if◌then◌else◌,
}
use qt_data_sync.Common.Equality.{◌==◌, string_eq}
use qt_data_sync.Json.{Bytes}

-- The types of properties; the last three are lists of DevicesMessage::DeviceInfo,
-- DeviceKeysMessage::DeviceKey and NewKeyMessage::KeyUpdate.
pub data Kind : Type 0 where
  bytes uint32 uint64 boolean uuid text utf8 version error_type : Kind
  device_infos device_key_list key_updates : Kind

abbrev pub Value : Kind → Type 0
Value bytes = Bytes
Value uint32 = ℕ
Value uint64 = ℕ
Value boolean = Bool
Value uuid = ℕ
Value text = String
Value utf8 = String
Value version = List ℕ
Value error_type = ℕ
Value device_infos = List (ℕ × (String × Bytes))
Value device_key_list = List (ℕ × (Bytes × (Bytes × Bytes)))
Value key_updates = List (ℕ × (Bytes × Bytes))

pub data Class : Type 0 where
  identify login register access account grant welcome sync : Class
  change change_ack device_change device_change_ack changed changed_info last_changed changed_ack :
      Class
  list_devices devices remove remove_ack proof deny accept accept_ack : Class
  mac_update mac_update_ack key_change device_keys new_key new_key_ack error : Class

-- The properties of the base classes InitMessage, RegisterBaseMessage and of those that are also sent.
abbrev pub init_properties : List Kind
init_properties = version ∷ bytes ∷ []

abbrev pub register_properties : List Kind
register_properties = version ∷ bytes ∷ bytes ∷ bytes ∷ bytes ∷ bytes ∷ utf8 ∷ []

abbrev pub account_properties : List Kind
account_properties = uuid ∷ []

abbrev pub change_properties : List Kind
change_properties = bytes ∷ uint32 ∷ bytes ∷ bytes ∷ []

abbrev pub changed_properties : List Kind
changed_properties = uint64 ∷ uint32 ∷ bytes ∷ bytes ∷ []

abbrev pub mac_properties : List Kind
mac_properties = uint32 ∷ bytes ∷ []

abbrev pub properties : Class → List Kind
properties identify = init_properties ++ uint32 ∷ []
properties login = init_properties ++ uuid ∷ utf8 ∷ []
properties register = register_properties ++ bytes ∷ []
properties access = register_properties ++ bytes ∷ uuid ∷ bytes ∷ bytes ∷ bytes ∷ []
properties account = account_properties
properties grant = account_properties ++ uint32 ∷ bytes ∷ bytes ∷ []
properties welcome = boolean ∷ uint32 ∷ bytes ∷ bytes ∷ bytes ∷ []
properties sync = []
properties change = change_properties
properties change_ack = bytes ∷ []
properties device_change = change_properties ++ uuid ∷ []
properties device_change_ack = bytes ∷ uuid ∷ []
properties changed = changed_properties
properties changed_info = changed_properties ++ uint32 ∷ []
properties last_changed = []
properties changed_ack = uint64 ∷ []
properties list_devices = []
properties devices = device_infos ∷ []
properties remove = uuid ∷ []
properties remove_ack = uuid ∷ []
properties proof = bytes ∷ uuid ∷ text ∷ bytes ∷ bytes ∷ bytes ∷ bytes ∷ bytes ∷ bytes ∷ bytes ∷ []
properties deny = uuid ∷ []
properties accept = uuid ∷ uint32 ∷ bytes ∷ bytes ∷ []
properties accept_ack = uuid ∷ []
properties mac_update = mac_properties
properties mac_update_ack = []
properties key_change = uint32 ∷ []
properties device_keys = uint32 ∷ boolean ∷ device_key_list ∷ []
properties new_key = mac_properties ++ bytes ∷ key_updates ∷ []
properties new_key_ack = uint32 ∷ []
properties error = error_type ∷ utf8 ∷ boolean ∷ []

-- msgNameImpl: the name of the class without the namespace and the suffix.
abbrev pub message_name : Class → String
message_name identify = "Identify"
message_name login = "Login"
message_name register = "Register"
message_name access = "Access"
message_name account = "Account"
message_name grant = "Grant"
message_name welcome = "Welcome"
message_name sync = "Sync"
message_name change = "Change"
message_name change_ack = "ChangeAck"
message_name device_change = "DeviceChange"
message_name device_change_ack = "DeviceChangeAck"
message_name changed = "Changed"
message_name changed_info = "ChangedInfo"
message_name last_changed = "LastChanged"
message_name changed_ack = "ChangedAck"
message_name list_devices = "ListDevices"
message_name devices = "Devices"
message_name remove = "Remove"
message_name remove_ack = "RemoveAck"
message_name proof = "Proof"
message_name deny = "Deny"
message_name accept = "Accept"
message_name accept_ack = "AcceptAck"
message_name mac_update = "MacUpdate"
message_name mac_update_ack = "MacUpdateAck"
message_name key_change = "KeyChange"
message_name device_keys = "DeviceKeys"
message_name new_key = "NewKey"
message_name new_key_ack = "NewKeyAck"
message_name error = "Error"

-- The classes that are sent.
abbrev pub all_classes : List Class
all_classes =
    identify ∷ login ∷ register ∷ access ∷ account ∷ grant ∷ welcome ∷ sync ∷ change ∷ change_ack
    ∷ device_change ∷ device_change_ack ∷ changed ∷ changed_info ∷ last_changed ∷ changed_ack
    ∷ list_devices ∷ devices ∷ remove ∷ remove_ack ∷ proof ∷ deny ∷ accept ∷ accept_ack ∷ mac_update
    ∷ mac_update_ack ∷ key_change ∷ device_keys ∷ new_key ∷ new_key_ack ∷ error ∷ []

-- isType, tried one after the other.
abbrev pub find_class : String → List Class → Option Class
find_class name [] = none
find_class name (c ∷ cs) =
    let rest = find_class name cs in if message_name c == name then some c else rest

pub found : (c : Class) → find_class (message_name c) all_classes ≡ some c
found identify = refl
found login = refl
found register = refl
found access = refl
found account = refl
found grant = refl
found welcome = refl
found sync = refl
found change = refl
found change_ack = refl
found device_change = refl
found device_change_ack = refl
found changed = refl
found changed_info = refl
found last_changed = refl
found changed_ack = refl
found list_devices = refl
found devices = refl
found remove = refl
found remove_ack = refl
found proof = refl
found deny = refl
found accept = refl
found accept_ack = refl
found mac_update = refl
found mac_update_ack = refl
found key_change = refl
found device_keys = refl
found new_key = refl
found new_key_ack = refl
found error = refl
