-- ===== src/Stored/ProfileLaws.antt =====
-- About frontend/src/app/lastSessionProfile.ts: profiles that are written and read.
use acp_webui.Common.{
  true, ◌&&◌, Option, none, some, ◌≡◌, refl, sym, ap, ◌∙◌, arith, some_inj, Bool-cases,
  Option-cases, inl, inr,
}
use acp_webui.Types.{Json, field_of}
use acp_webui.Stored.Profiles.{
  LastSessionProfile, is_truthy, object_or_empty, profile_in, profile_json, profile_of,
}

-- A profile as it can be read: with an agent and a mode, and values that are an object.
abbrev pub IsReadable : LastSessionProfile → Type 0
IsReadable profile =
    (is_truthy (some profile.agent_id) ≡ true)
    × (is_truthy (some profile.permission_mode) ≡ true)
    × (object_or_empty (some profile.launch_control_values) ≡ some profile.launch_control_values)

pub profile_in-profile_json :
    (profile : LastSessionProfile)
    → IsReadable profile
    → profile_in (profile_json profile) ≡ some profile
unfolding profile_in profile_json field_of
profile_in-profile_json profile (agent, mode, values) = rw values (rw (agent, mode) refl)

object_or_empty_idem :
    (v : Option Json) (w : Json) → object_or_empty v ≡ some w → object_or_empty (some w) ≡ some w
object_or_empty_idem none w h = cc
object_or_empty_idem (some Json.null) w h = sym (ap object_or_empty h) ∙ h
object_or_empty_idem (some (Json.array vs)) w h = sym (ap object_or_empty h) ∙ h
object_or_empty_idem (some (Json.object fields)) w h = sym (ap object_or_empty h) ∙ h
object_or_empty_idem (some (Json.boolean b)) w h = cc
object_or_empty_idem (some (Json.number n)) w h = cc
object_or_empty_idem (some (Json.text s)) w h = cc

-- What is read is readable.
pub profile_in-IsReadable :
    (value : Json) (profile : LastSessionProfile)
    → profile_in value ≡ some profile
    → IsReadable profile
unfolding profile_in
profile_in-IsReadable (Json.object fields) profile h =
    go (field_of "agentId" fields) (field_of "permissionMode" fields)
      (field_of "launchControlValues" fields) h
  where
    go :
        (a m v : Option Json)
        → profile_of a m (object_or_empty v) ≡ some profile
        → IsReadable profile
    go a m v e = elim (Option-cases (object_or_empty v)) [
      | inl absent ↦ no_values a m (ap (profile_of a m) (sym absent) ∙ e)
      | inr (w, there) ↦
          with_values a m w (object_or_empty_idem v w there) (ap (profile_of a m) (sym there) ∙ e)
    ]
      where
        no_values : (a m : Option Json) → profile_of a m none ≡ some profile → IsReadable profile
        no_values none m e = cc
        no_values (some a) none e = cc
        no_values (some a) (some m) e = cc

        with_values :
            (a m : Option Json) (w : Json)
            → object_or_empty (some w) ≡ some w
            → profile_of a m (some w) ≡ some profile
            → IsReadable profile
        with_values none m w ok e = cc
        with_values (some a) none w ok e = cc
        with_values (some a) (some m) w ok e =
            elim (Bool-cases (is_truthy (some a) && is_truthy (some m))) [
              | inl good ↦
                  let p = some_inj (rw good at e) in
                  rw (sym p) (ground (arith, good), ground (arith, good), ok)
              | inr bad ↦ let missing : none ≡ some profile = rw bad at e in cc
            ]
profile_in-IsReadable Json.null profile h = cc
profile_in-IsReadable (Json.boolean b) profile h = cc
profile_in-IsReadable (Json.number n) profile h = cc
profile_in-IsReadable (Json.text s) profile h = cc
profile_in-IsReadable (Json.array vs) profile h = cc
