-- ===== src/Stored/Profiles.antt =====
-- frontend/src/app/lastSessionProfile.ts: the profile of the last session, of all and per workspace.
use acp_webui.Common.{
  String, Bool, true, false, not, ◌&&◌, Option, none, some, List, [], ◌∷◌, if◌then◌else◌, is_empty,
  or_else, or_else?, ◌==◌,
}
use acp_webui.Types.{Fields, Json, field_of}
use acp_webui.Stored.Objects.{
  Codec, Storage, element_entries, field_entries, fields_of, put, read_json, set_item, value_of,
}

abbrev pub profile_key : String
profile_key = "lastSessionProfile"

abbrev pub workspace_profiles_key : String
workspace_profiles_key = "lastSessionProfilesByWorkspace"

-- The fields are as they are read: that they are truthy, or an object, is all that is checked.
pub record LastSessionProfile : Type 0 where
  pub agent_id : Json
  pub permission_mode : Json
  pub launch_control_values : Json

-- Whether a value is truthy; `none` is undefined.
abbrev pub is_truthy : Option Json → Bool
is_truthy none = false
is_truthy (some Json.null) = false
is_truthy (some (Json.boolean b)) = b
is_truthy (some (Json.number n)) = not (n == "0")
is_truthy (some (Json.text s)) = not (is_empty s)
is_truthy (some (Json.array vs)) = true
is_truthy (some (Json.object fields)) = true

-- `typeof value === "object"` holds of null and of arrays too; `value ?? {}`.
abbrev pub object_or_empty : Option Json → Option Json
object_or_empty none = none
object_or_empty (some Json.null) = some (Json.object Fields.end)
object_or_empty (some (Json.array vs)) = some (Json.array vs)
object_or_empty (some (Json.object fields)) = some (Json.object fields)
object_or_empty (some (Json.boolean b)) = none
object_or_empty (some (Json.number n)) = none
object_or_empty (some (Json.text s)) = none

abbrev pub profile_of : Option Json → Option Json → Option Json → Option LastSessionProfile
profile_of (some agent_id) (some permission_mode) (some values) =
    if is_truthy (some agent_id) && is_truthy (some permission_mode)
    then some (record {
      agent_id = agent_id;
      permission_mode = permission_mode;
      launch_control_values = values;
    })
    else none
profile_of _ _ _ = none

-- The profile in a value; a value of another type has no such fields, and null throws.
unfoldable pub profile_in : Json → Option LastSessionProfile
unfolding field_of
profile_in (Json.object fields) =
    profile_of (field_of "agentId" fields) (field_of "permissionMode" fields)
      (object_or_empty (field_of "launchControlValues" fields))
profile_in Json.null = none
profile_in (Json.boolean b) = none
profile_in (Json.number n) = none
profile_in (Json.text s) = none
profile_in (Json.array vs) = none

abbrev pub profile_in? : Option Json → Option LastSessionProfile
profile_in? none = none
profile_in? (some value) = profile_in value

unfoldable pub read_last_session_profile : Codec → Storage → Option LastSessionProfile
unfolding read_json profile_in
read_last_session_profile c storage = profile_in? (read_json c profile_key storage)

unfoldable pub profile_json : LastSessionProfile → Json
profile_json profile = Json.object (
    Fields.field "agentId" profile.agent_id (
      Fields.field "permissionMode" profile.permission_mode
        (Fields.field "launchControlValues" profile.launch_control_values Fields.end)))

unfoldable pub write_last_session_profile : Codec → LastSessionProfile → Storage → Storage
unfolding profile_json
write_last_session_profile c profile storage =
    set_item profile_key (c.stringify (profile_json profile)) storage

abbrev pub ProfileMap : Type 0
ProfileMap = List (String × LastSessionProfile)

abbrev pub is_null : Json → Bool
is_null Json.null = true
is_null (Json.boolean b) = false
is_null (Json.number n) = false
is_null (Json.text s) = false
is_null (Json.array vs) = false
is_null (Json.object fields) = false

unfoldable pub put_profile : String → Option LastSessionProfile → ProfileMap → ProfileMap
unfolding put
put_profile key none next = next
put_profile key (some profile) next = put key profile next

-- The entries with a profile; an entry that is null throws, which is `none`.
unfoldable pub profiles_from : List (String × Json) → ProfileMap → Option ProfileMap
unfolding profile_in put_profile
profiles_from [] next = some next
profiles_from ((key, value) ∷ entries) next =
    let rest = profiles_from entries (put_profile key (profile_in value) next) in
    if is_null value then none else rest

-- `Object.entries(profiles)`; those of a text are its characters, which are no profiles.
unfoldable pub entries_of : Option Json → List (String × Json)
unfolding element_entries
entries_of none = []
entries_of (some Json.null) = []
entries_of (some (Json.boolean b)) = []
entries_of (some (Json.number n)) = []
entries_of (some (Json.text s)) = []
entries_of (some (Json.array vs)) = element_entries 0 vs
entries_of (some (Json.object fields)) = field_entries fields

-- `parsed.profiles` of a value that is no object is undefined, and of null it throws.
unfoldable pub profiles_in : Json → ProfileMap
unfolding field_of profiles_from entries_of
profiles_in (Json.object fields) =
    or_else (profiles_from (entries_of (field_of "profiles" fields)) []) []
profiles_in Json.null = []
profiles_in (Json.boolean b) = []
profiles_in (Json.number n) = []
profiles_in (Json.text s) = []
profiles_in (Json.array vs) = []

abbrev pub profiles_in? : Option Json → ProfileMap
profiles_in? none = []
profiles_in? (some value) = profiles_in value

unfoldable pub read_workspace_profiles : Codec → Storage → ProfileMap
unfolding read_json profiles_in
read_workspace_profiles c storage = profiles_in? (read_json c workspace_profiles_key storage)

unfoldable pub read_last_workspace_session_profile :
    Codec → String → Storage → Option LastSessionProfile
unfolding read_workspace_profiles read_last_session_profile
read_last_workspace_session_profile c workspace_id storage =
    or_else? (value_of workspace_id (read_workspace_profiles c storage))
      (read_last_session_profile c storage)

-- What is written for the profiles.
unfoldable pub profiles_json : ProfileMap → Json
unfolding profile_json
profiles_json profiles = Json.object (
    Fields.field "version" (Json.number "1")
      (Fields.field "profiles" (Json.object (fields_of profile_json profiles)) Fields.end))

unfoldable pub write_last_workspace_session_profile :
    Codec → String → LastSessionProfile → Storage → Storage
unfolding read_workspace_profiles profiles_json put
write_last_workspace_session_profile c workspace_id profile storage =
    set_item workspace_profiles_key
      (c.stringify (profiles_json (put workspace_id profile (read_workspace_profiles c storage))))
      storage
