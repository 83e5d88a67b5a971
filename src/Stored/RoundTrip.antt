-- ===== src/Stored/RoundTrip.antt =====
-- About frontend/src/app/lastSessionProfile.ts: a profile that is written is the one that is read.
use acp_webui.Common.{
  String, false, Option, none, some, List, [], ◌∷◌, if◌then◌else◌, ◌≡◌, refl, sym, ap, ◌∙◌, ◌==◌,
  eq_iff, is_empty, or_else, or_else?, any, All, All-append, Bool-cases, Option-cases, inl, inr,
}
use acp_webui.Common.Keyed.{replace, upsert}
use acp_webui.Types.{Json, field_of}
use acp_webui.Stored.Objects.{
  Codec, Storage, entry_key, field_entries, fields_of, put, read_json, value_of,
}
use acp_webui.Stored.ObjectLaws.{
  HasKeysOnce, put-HasKeysOnce, read_json-set_item, read_json_other, value_of-absent, value_of-put,
}
use acp_webui.Stored.Profiles.{
  LastSessionProfile, ProfileMap, entries_of, is_null, profile_in, profile_in?, profile_json,
  profile_key, profiles_from, profiles_in, profiles_in?, profiles_json, put_profile,
  read_last_session_profile, read_last_workspace_session_profile, read_workspace_profiles,
  workspace_profiles_key, write_last_session_profile, write_last_workspace_session_profile,
}
use acp_webui.Stored.ProfileLaws.{IsReadable, profile_in-IsReadable, profile_in-profile_json}

-- A profile that is written is read.
pub read-write_last_session_profile :
    (c : Codec) (profile : LastSessionProfile) (storage : Storage)
    → IsReadable profile
    → c.parse (c.stringify (profile_json profile)) ≡ some (profile_json profile)
    → is_empty (c.stringify (profile_json profile)) ≡ false
    → read_last_session_profile c (write_last_session_profile c profile storage) ≡ some profile
unfolding read_last_session_profile write_last_session_profile
read-write_last_session_profile c profile storage readable faithful ink =
    ap profile_in? (read_json-set_item c profile_key (profile_json profile) storage faithful ink)
    ∙ profile_in-profile_json profile readable

-- A map of profiles as they are read.
abbrev ReadsBack : ProfileMap → Type 0
ReadsBack map = All (λ e. IsReadable e.1) map

replace-ReadsBack :
    (e : String × LastSessionProfile) (map : ProfileMap)
    → IsReadable e.1
    → ReadsBack map
    → ReadsBack (replace entry_key e map)
unfolding replace
replace-ReadsBack e [] h v = tt
replace-ReadsBack e (f ∷ map) h (p, v) = elim (Bool-cases (entry_key f == entry_key e)) [
  | inl same ↦ rw same (h, replace-ReadsBack e map h v)
  | inr other ↦ rw other (p, replace-ReadsBack e map h v)
]

put-ReadsBack :
    (key : String) (profile : LastSessionProfile) (map : ProfileMap)
    → IsReadable profile
    → ReadsBack map
    → ReadsBack (put key profile map)
unfolding put upsert
put-ReadsBack key profile map h v = elim (Bool-cases (any (λ e. entry_key e == key) map)) [
  | inl old ↦ rw old (replace-ReadsBack (key, profile) map h v)
  | inr new ↦ rw new (All-append (λ e. IsReadable e.1) map ((key, profile) ∷ []) v (h, tt))
]

abbrev IsSound : ProfileMap → Type 0
IsSound map = HasKeysOnce map × ReadsBack map

put_profile-IsSound :
    (key : String) (value : Json) (map : ProfileMap)
    → IsSound map
    → IsSound (put_profile key (profile_in value) map)
unfolding put_profile
put_profile-IsSound key value map (once, back) = elim (Option-cases (profile_in value)) [
  | inl absent ↦ rw absent (once, back)
  | inr (profile, there) ↦ rw there (
    put-HasKeysOnce key profile map once,
    put-ReadsBack key profile map (profile_in-IsReadable value profile there) back,
  )
]

abbrev IsSound? : Option ProfileMap → Type 0
IsSound? none = Unit
IsSound? (some map) = IsSound map

profiles_from-IsSound :
    (entries : List (String × Json)) (next : ProfileMap)
    → IsSound next
    → IsSound? (profiles_from entries next)
unfolding profiles_from
profiles_from-IsSound [] next v = v
profiles_from-IsSound ((key, value) ∷ entries) next v = elim (Bool-cases (is_null value)) [
  | inl null ↦ rw null tt
  | inr ok ↦ rw ok (
      profiles_from-IsSound entries (put_profile key (profile_in value) next)
        (put_profile-IsSound key value next v))
]

or_empty-IsSound : (o : Option ProfileMap) → IsSound? o → IsSound (or_else o [])
or_empty-IsSound none v = (tt, tt)
or_empty-IsSound (some map) v = v

profiles_in-IsSound : (value : Json) → IsSound (profiles_in value)
unfolding profiles_in
profiles_in-IsSound (Json.object fields) =
    or_empty-IsSound (profiles_from (entries_of (field_of "profiles" fields)) [])
      (profiles_from-IsSound (entries_of (field_of "profiles" fields)) [] (tt, tt))
profiles_in-IsSound Json.null = (tt, tt)
profiles_in-IsSound (Json.boolean b) = (tt, tt)
profiles_in-IsSound (Json.number n) = (tt, tt)
profiles_in-IsSound (Json.text s) = (tt, tt)
profiles_in-IsSound (Json.array vs) = (tt, tt)

read_workspace_profiles-IsSound :
    (c : Codec) (storage : Storage) → IsSound (read_workspace_profiles c storage)
unfolding read_workspace_profiles
read_workspace_profiles-IsSound c storage = go (read_json c workspace_profiles_key storage)
  where
    go : (value : Option Json) → IsSound (profiles_in? value)
    go none = (tt, tt)
    go (some value) = profiles_in-IsSound value

-- What is read of profiles that were written, by what was there before.
abbrev value_in : String → Option ProfileMap → Option LastSessionProfile
value_in k none = none
value_in k (some map) = value_of k map

profiles_from-written :
    (k : String) (map next : ProfileMap)
    → IsSound map
    → value_in k (profiles_from (field_entries (fields_of profile_json map)) next)
      ≡ or_else? (value_of k map) (value_of k next)
unfolding profiles_from put_profile profile_json
profiles_from-written k [] next v = refl
profiles_from-written k ((key, profile) ∷ map) next ((apart, once), (readable, back)) =
    let entries = field_entries (fields_of profile_json map) in
    let read : put_profile key (profile_in (profile_json profile)) next ≡ put key profile next =
      ap (λ o. put_profile key o next) (profile_in-profile_json profile readable) in
    ap (λ n. value_in k (profiles_from entries n)) read
    ∙ profiles_from-written k map (put key profile next) (once, back)
    ∙ elim (Bool-cases (key == k)) [
      | inl same ↦
          rw
            (
              value_of-put k key profile next,
              same,
              sym ((eq_iff key k).0 same),
              value_of-absent key map apart,
            )
            refl
      | inr other ↦ rw (value_of-put k key profile next, other) refl
    ]

value_of-or_empty : (k : String) (o : Option ProfileMap) → value_of k (or_else o []) ≡ value_in k o
value_of-or_empty k none = refl
value_of-or_empty k (some map) = refl

or_else?-none : (o : Option LastSessionProfile) → or_else? o none ≡ o
or_else?-none none = refl
or_else?-none (some profile) = refl

profiles_in-profiles_json :
    (k : String) (map : ProfileMap)
    → IsSound map
    → value_of k (profiles_in (profiles_json map)) ≡ value_of k map
unfolding profiles_in profiles_json field_of entries_of
profiles_in-profiles_json k map v =
    value_of-or_empty k (profiles_from (field_entries (fields_of profile_json map)) [])
    ∙ profiles_from-written k map [] v
    ∙ or_else?-none (value_of k map)

-- After a profile is written for a workspace it is the one that is read there, and elsewhere what
-- was read before, if it has an agent, a mode and an object of values, and JSON reads the text that
-- it wrote, which is not empty, as the value it wrote.
pub read-write_last_workspace_session_profile :
    (c : Codec) (workspace_id : String) (profile : LastSessionProfile) (storage : Storage)
    (k : String)
    → IsReadable profile
    → c.parse
        (c.stringify (profiles_json (put workspace_id profile (read_workspace_profiles c storage))))
      ≡ some (profiles_json (put workspace_id profile (read_workspace_profiles c storage)))
    → is_empty
        (c.stringify (profiles_json (put workspace_id profile (read_workspace_profiles c storage))))
      ≡ false
    → read_last_workspace_session_profile c k
        (write_last_workspace_session_profile c workspace_id profile storage)
      ≡ (if workspace_id == k
          then some profile
          else read_last_workspace_session_profile c k storage)
unfolding read_last_workspace_session_profile write_last_workspace_session_profile
read-write_last_workspace_session_profile c workspace_id profile storage k readable faithful ink =
    let before = read_workspace_profiles c storage in
    let (once, back) = read_workspace_profiles-IsSound c storage in
    let map = put workspace_id profile before in
    let after = write_last_workspace_session_profile c workspace_id profile storage in
    let profiles : value_of k (read_workspace_profiles c after) ≡ value_of k map =
      unfold read_workspace_profiles in
      (ap (λ value. value_of k (profiles_in? value))
          (read_json-set_item c workspace_profiles_key (profiles_json map) storage faithful ink)
        ∙ profiles_in-profiles_json k map (
          put-HasKeysOnce workspace_id profile before once,
          put-ReadsBack workspace_id profile before readable back,
        )) in
    let last : read_last_session_profile c after ≡ read_last_session_profile c storage =
      unfold read_last_session_profile in
      ap profile_in? (
        read_json_other c workspace_profiles_key profile_key (c.stringify (profiles_json map))
          storage refl) in
    ap (λ o. or_else? o (read_last_session_profile c after))
      (profiles ∙ value_of-put k workspace_id profile before)
    ∙ elim (Bool-cases (workspace_id == k)) [
      | inl same ↦ rw same refl
      | inr other ↦ rw (other, last) refl
    ]
