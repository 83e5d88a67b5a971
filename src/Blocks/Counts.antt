-- ===== src/Blocks/Counts.antt =====
-- About frontend/src/app/timelineBlocks.ts: the counts of a group's summary, and the command that a
-- permission request gives to its tool call.
use acp_webui.Common.{
  String, ℕ, suc, ◌+◌, Bool, true, false, some, List, [], ◌∷◌, filter, if◌then◌else◌, ◌≡◌, ap, refl,
  ◌∙◌, arith, length, is_empty, nat_eq, Bool-cases, inl, inr,
}
use acp_webui.Common.Text.{trim}
use acp_webui.Types.{Fields, Json, PermissionItem, ToolCallItem, field_of}
use acp_webui.Tools.Call.{command_keys, tool_values}
use acp_webui.Tools.Values.{
  at_field, candidate_text, find_string, find_string_from, first_found, truthy_text,
}
use acp_webui.Blocks.Context.{input_fields, set_field, with_permission}
use acp_webui.Blocks.Laws.{field_of-set_field}
use acp_webui.Blocks.Groups.{
  ActivitySummaryKey, TimelineToolGroupEntry, count_kind, count_kinds, key_number, same_key,
  summary_key,
}

-- The count of a kind; 0 if it is not there.
abbrev pub count_of : ActivitySummaryKey → List (ActivitySummaryKey × ℕ) → ℕ
count_of kind [] = 0
count_of kind ((k, n) ∷ counts) = if same_key k kind then n else count_of kind counts

abbrev pub is_of_kind : ActivitySummaryKey → TimelineToolGroupEntry → Bool
unfolding summary_key
is_of_kind kind entry = same_key (summary_key entry.display.kind) kind

nat_eq_path : (m n : ℕ) → nat_eq m n ≡ true → m ≡ n
nat_eq_path m n h = ground arith

same_key_agree :
    (k other kind : ActivitySummaryKey)
    → same_key k other ≡ true
    → same_key k kind ≡ same_key other kind
same_key_agree k other kind h =
    ap (λ n. nat_eq n (key_number kind)) (nat_eq_path (key_number k) (key_number other) h)

add_one :
    (b : Bool) (n rest : ℕ)
    → (if b then suc n else rest) ≡ (if b then n else rest) + (if b then 1 else 0)
add_one true n rest = omega arith
add_one false n rest = omega arith

count_of-count_kind :
    (kind other : ActivitySummaryKey) (counts : List (ActivitySummaryKey × ℕ))
    → count_of kind (count_kind other counts)
      ≡ count_of kind counts + (if same_key other kind then 1 else 0)
unfolding count_kind
count_of-count_kind kind other [] = ground arith
count_of-count_kind kind other ((k, n) ∷ counts) = elim (Bool-cases (same_key k other)) [
  | inl same ↦
      rw (same, same_key_agree k other kind same)
        (add_one (same_key other kind) n (count_of kind counts))
  | inr apart ↦ rw apart (elim (Bool-cases (same_key k kind)) [
    | inl own ↦
        let other_kind : same_key other kind ≡ false = ground (arith, own, apart) in
        rw (own, other_kind) (omega arith)
    | inr foreign ↦ rw foreign (count_of-count_kind kind other counts)
  ])
]

count_of-count_kinds :
    (kind : ActivitySummaryKey) (entries : List TimelineToolGroupEntry)
    (counts : List (ActivitySummaryKey × ℕ))
    → count_of kind (count_kinds entries counts)
      ≡ count_of kind counts + length (filter (is_of_kind kind) entries)
unfolding count_kinds
count_of-count_kinds kind [] counts = ground arith
count_of-count_kinds kind (entry ∷ entries) counts =
    count_of-count_kinds kind entries (count_kind (summary_key entry.display.kind) counts)
    ∙ (rw (count_of-count_kind kind (summary_key entry.display.kind) counts)
        (more (is_of_kind kind entry)))
  where
    more :
        (b : Bool)
        → (count_of kind counts + (if b then 1 else 0)) + length (filter (is_of_kind kind) entries)
          ≡ count_of kind counts
            + length (
                if b
                then entry ∷ filter (is_of_kind kind) entries
                else filter (is_of_kind kind) entries)
    more true = omega arith
    more false = omega arith

-- The summary of a group counts the tools of each kind.
pub count_kinds_lem :
    (kind : ActivitySummaryKey) (entries : List TimelineToolGroupEntry)
    → count_of kind (count_kinds entries []) ≡ length (filter (is_of_kind kind) entries)
count_kinds_lem kind entries = count_of-count_kinds kind entries [] ∙ ground arith

truthy_text_of_ink : (t : String) → is_empty t ≡ false → truthy_text (some t) ≡ some t
truthy_text_of_ink t ink = rw ink refl

-- The first key of a search decides, if its text is not blank.
find_string_from-first :
    (key t : String) (keys : List String) (d : ℕ) (fields : Fields)
    → field_of key fields ≡ some (Json.text t)
    → is_empty (trim t) ≡ false
    → find_string_from (key ∷ keys) (suc d) (Json.object fields) ≡ some (trim t)
unfolding find_string_from first_found at_field
find_string_from-first key t keys d fields there ink =
    let candidate : candidate_text (Json.text t) ≡ some (trim t) =
      unfold candidate_text in truthy_text_of_ink (trim t) ink in
    rw (there, candidate, truthy_text_of_ink (trim t) ink) refl

-- A permission request with a title gives the tool call its title as the command that is shown.
pub with_permission-command :
    (item : ToolCallItem) (permission : PermissionItem)
    → is_empty permission.title ≡ false
    → is_empty (trim permission.title) ≡ false
    → (tool_values (with_permission item (some permission))).command ≡ some (trim permission.title)
unfolding with_permission tool_values find_string
with_permission-command item permission titled ink =
    let fields = set_field "command" (Json.text permission.title) (input_fields item.input) in
    let found : find_string_from command_keys 5 (Json.object fields)
        ≡ some (trim permission.title) =
      find_string_from-first "command" permission.title
        ("cmd" ∷ "script" ∷ "shell" ∷ "commandLine" ∷ []) 4 fields
        (field_of-set_field "command" "command" (Json.text permission.title)
          (input_fields item.input))
        ink in
    rw (titled, found) refl
