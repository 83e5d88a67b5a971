-- ===== src/Stored/Controls.antt =====
-- About frontend/src/app/lastSessionProfile.ts: the values of the controls with which a session starts.
use acp_webui.Common.{
  String, Bool, true, false, ◌||◌, Option, none, some, List, [], ◌∷◌, find, any, ◌≡◌, ◌≢◌, refl, ap,
  ◌∙◌, arith, ◌==◌, eq_iff, eq_refl, some_inj, or_else, All, Bool-cases, Option-cases, inl, inr,
}
use acp_webui.Common.Keyed.Laws.{HasDistinctKeys}
use acp_webui.Types.{AgentControl, AgentControlValue, AgentRuntimeStatus, Json, field_of}
use acp_webui.Stored.Objects.{fields_of, put, value_of}
use acp_webui.Stored.ObjectLaws.{value_of-put}
use acp_webui.Stored.Resolve.{
  chosen, control_value, control_values, equals, value_or, normalize_launch_control_values,
  stored_value,
}

abbrev pub control_id : AgentControl → String
control_id control = control.id

abbrev pub controls_of : AgentRuntimeStatus → List AgentControl
controls_of agent = or_else agent.launch_controls []

-- Whether a control has a value: one of its options, or its default.
abbrev pub allows : AgentControl → Option String → Bool
allows control none = false
allows control (some value) =
    control.default_value == value || any (λ item. item.value == value) control.options

found_option :
    (p : AgentControlValue → Bool) (options : List AgentControlValue) (option : AgentControlValue)
    → find p options ≡ some option
    → any (λ item. item.value == option.value) options ≡ true
found_option p [] option h = cc
found_option p (item ∷ options) option h = elim (Bool-cases (p item)) [
  | inl this ↦
      let e : item ≡ option = some_inj (rw this at h) in
      rw (ap (λ i. i.value) e) (rw (eq_refl option.value) refl)
  | inr other ↦ let later = found_option p options option (rw other at h) in ground (arith, later)
]

allows-value_or :
    (p : AgentControlValue → Bool) (options : List AgentControlValue) (default : String)
    → (default == value_or default (find p options)
        || any (λ item. item.value == value_or default (find p options)) options)
      ≡ true
allows-value_or p options default = elim (Option-cases (find p options)) [
  | inl absent ↦ rw absent (rw (eq_refl default) refl)
  | inr (option, there) ↦
      let known = found_option p options option there in rw there (ground (arith, known))
]

allows-control_value :
    (control : AgentControl) (values : Json)
    → allows control (some (control_value control values)) ≡ true
unfolding control_value
allows-control_value control values =
    allows-value_or (λ item. equals (stored_value values control.id) item.value) control.options
      control.default_value

-- The value of a control, after the loop over the controls.
value_of-control_values_other :
    (k : String) (controls : List AgentControl) (values : Json) (next : List (String × String))
    → All (λ c. control_id c ≢ k) controls
    → value_of k (control_values controls values next) ≡ value_of k next
unfolding control_values
value_of-control_values_other k [] values next h = refl
value_of-control_values_other k (control ∷ controls) values next (apart, h) =
    value_of-control_values_other k controls values _ h
    ∙ value_of-put k control.id (control_value control values) next
    ∙ elim (Bool-cases (control.id == k)) [
      | inl same ↦ absurd (apart ((eq_iff control.id k).0 same))
      | inr other ↦ rw other refl
    ]

values_of_controls :
    (controls : List AgentControl) (values : Json) (next : List (String × String))
    → HasDistinctKeys control_id controls
    → All
        (λ c. value_of c.id (control_values controls values next) ≡ some (control_value c values))
        controls
unfolding control_values
values_of_controls [] values next h = tt
values_of_controls (control ∷ controls) values next (apart, h) = (
  value_of-control_values_other control.id controls values
        (put control.id (control_value control values) next) apart
      ∙ value_of-put control.id control.id (control_value control values) next
      ∙ rw (eq_refl control.id) refl,
  values_of_controls controls values (put control.id (control_value control values) next) h,
)

All-map :
    (P Q : AgentControl → Type 0) (controls : List AgentControl)
    → ((c : AgentControl) → P c → Q c)
    → All P controls
    → All Q controls
All-map P Q [] f h = tt
All-map P Q (c ∷ controls) f (p, h) = (f c p, All-map P Q controls f h)

-- Whatever values were stored, every control of an agent whose controls have distinct ids is given
-- one of its options or its default.
pub normalize_launch_control_values-allows :
    (agent : AgentRuntimeStatus) (values : Json)
    → HasDistinctKeys control_id (controls_of agent)
    → All
        (λ c. allows c (value_of c.id (normalize_launch_control_values agent values)) ≡ true)
        (controls_of agent)
unfolding normalize_launch_control_values
normalize_launch_control_values-allows agent values distinct =
    All-map _ _ (controls_of agent) (λ c there. ap (allows c) there ∙ allows-control_value c values)
      (values_of_controls (controls_of agent) values [] distinct)

field_of-fields_of :
    (k v : String) (map : List (String × String))
    → value_of k map ≡ some v
    → field_of k (fields_of Json.text map) ≡ some (Json.text v)
unfolding field_of
field_of-fields_of k v [] h = cc
field_of-fields_of k v ((key, value) ∷ map) h = elim (Bool-cases (key == k)) [
  | inl same ↦
      let e : value ≡ v = some_inj (rw same at h) in rw same (ap (λ t. some (Json.text t)) e)
  | inr other ↦ rw other (field_of-fields_of k v map (rw other at h))
]

-- A value that a control has stays.
found_value :
    (v d : String) (options : List AgentControlValue)
    → (d == v || any (λ item. item.value == v) options) ≡ true
    → value_or d (find (λ item. item.value == v) options) ≡ v
found_value v d [] h = (eq_iff d v).0 (ground (arith, h))
found_value v d (item ∷ options) h = elim (Bool-cases (item.value == v)) [
  | inl same ↦ rw same ((eq_iff item.value v).0 same)
  | inr other ↦ rw other (found_value v d options (ground (arith, h, other)))
]

control_value_stays :
    (control : AgentControl) (values : Json) (map : List (String × String))
    → value_of control.id map ≡ some (control_value control values)
    → control_value control (Json.object (fields_of Json.text map)) ≡ control_value control values
control_value_stays control values map there =
    let v = control_value control values in
    let read = field_of-fields_of control.id v map there in
    let known = allows-control_value control values in
    let again : control_value control (Json.object (fields_of Json.text map))
        ≡ chosen control.options control.default_value
            (field_of control.id (fields_of Json.text map)) =
      unfold control_value in unfold stored_value in refl in
    again
    ∙ ap (λ stored. chosen control.options control.default_value stored) read
    ∙ found_value v control.default_value control.options known

control_values_agree :
    (controls : List AgentControl) (values others : Json) (next : List (String × String))
    → All (λ c. control_value c others ≡ control_value c values) controls
    → control_values controls others next ≡ control_values controls values next
unfolding control_values
control_values_agree [] values others next h = refl
control_values_agree (c ∷ controls) values others next (e, h) =
    control_values_agree controls values others (put c.id (control_value c others) next) h
    ∙ ap (λ v. control_values controls values (put c.id v next)) e

-- Values that were normalized stay as they are when they are stored and read again.
pub normalize_launch_control_values_idem :
    (agent : AgentRuntimeStatus) (values : Json)
    → HasDistinctKeys control_id (controls_of agent)
    → normalize_launch_control_values agent
        (Json.object (fields_of Json.text (normalize_launch_control_values agent values)))
      ≡ normalize_launch_control_values agent values
unfolding normalize_launch_control_values
normalize_launch_control_values_idem agent values distinct =
    let controls = controls_of agent in
    let map = control_values controls values [] in
    control_values_agree controls values (Json.object (fields_of Json.text map)) [] (
      All-map _
        (λ c. control_value c (Json.object (fields_of Json.text map)) ≡ control_value c values)
        controls (λ c there. control_value_stays c values map there)
        (values_of_controls controls values [] distinct))
