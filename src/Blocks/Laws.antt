-- ===== src/Blocks/Laws.antt =====
-- About frontend/src/app/timelineBlocks.ts: what a tool call takes from its permission request and
-- its artifacts, and the counts of a group's summary.
use acp_webui.Common.{
  String, suc, ◌≤◌, Bool, false, ◌&&◌, ◌||◌, some, List, [], ◌∷◌, ◌++◌, if◌then◌else◌, ◌≡◌, refl,
  sym, ap, ◌∙◌, ◌==◌, eq_iff, arith, any, length, is_empty, nat_eq, Bool-cases, inl, inr,
}
use acp_webui.Common.Sets.{add, has, unique}
use acp_webui.Common.Sets.Laws.{HasNoRepeats, has-add, has-unique, unique_lem}
use acp_webui.Types.{Fields, Json, ReviewArtifactSummary, ToolCallItem, field_of}
use acp_webui.Blocks.Context.{
  add_linked, all_artifact_ids, is_id, set_field, with_linked_artifact_ids,
}

pub field_of-set_field :
    (k key : String) (v : Json) (fields : Fields)
    → field_of k (set_field key v fields) ≡ (if key == k then some v else field_of k fields)
unfolding field_of set_field
field_of-set_field k key v Fields.end = ground arith
field_of-set_field k key v (Fields.field name w rest) =
    ground (arith, field_of-set_field k key v rest, eq_iff name key, eq_iff name k, eq_iff key k)

-- Whether an artifact with an id is linked to a tool call.
abbrev pub is_linked : String → String → List ReviewArtifactSummary → Bool
is_linked k id artifacts =
    any (λ artifact. is_id artifact.tool_call_id id && artifact.id == k) artifacts

has-add_linked :
    (k id : String) (artifacts : List ReviewArtifactSummary) (ids : List String)
    → has k (add_linked id artifacts ids) ≡ (has k ids || is_linked k id artifacts)
unfolding add_linked
has-add_linked k id [] ids = ground arith
has-add_linked k id (artifact ∷ artifacts) ids =
    elim (Bool-cases (is_id artifact.tool_call_id id)) [
      | inl own ↦ rw own (
          has-add_linked k id artifacts (add artifact.id ids)
          ∙ ground (arith, has-add k artifact.id ids))
      | inr other ↦ rw other (has-add_linked k id artifacts ids)
    ]

length-concat : (x : String) (xs : List String) → length (xs ++ x ∷ []) ≡ suc (length xs)
length-concat x [] = refl
length-concat x (y ∷ ys) = ap suc (length-concat x ys)

length-add : (x : String) (xs : List String) → length xs ≤ length (add x xs)
unfolding add
length-add x xs = elim (Bool-cases (has x xs)) [
  | inl old ↦ rw old (omega arith)
  | inr new ↦ rw (new, length-concat x xs) (omega arith)
]

length-add_linked :
    (id : String) (artifacts : List ReviewArtifactSummary) (ids : List String)
    → length ids ≤ length (add_linked id artifacts ids)
unfolding add_linked
length-add_linked id [] ids = omega arith
length-add_linked id (artifact ∷ artifacts) ids =
    elim (Bool-cases (is_id artifact.tool_call_id id)) [
      | inl own ↦
          let first = length-add artifact.id ids in
          let later = length-add_linked id artifacts (add artifact.id ids) in rw own (omega arith)
      | inr other ↦ rw other (length-add_linked id artifacts ids)
    ]

-- A set that does not grow stays the same.
add_linked_same :
    (id : String) (artifacts : List ReviewArtifactSummary) (ids : List String)
    → length (add_linked id artifacts ids) ≡ length ids
    → add_linked id artifacts ids ≡ ids
unfolding add_linked
add_linked_same id [] ids h = refl
add_linked_same id (artifact ∷ artifacts) ids h =
    elim (Bool-cases (is_id artifact.tool_call_id id)) [
      | inr other ↦ rw other (add_linked_same id artifacts ids (rw other at h))
      | inl own ↦ elim (Bool-cases (has artifact.id ids)) [
        | inl old ↦
            let kept : add artifact.id ids ≡ ids = unfold add in rw old refl in
            let later = rw own at h in
            rw (own, kept) (add_linked_same id artifacts ids (rw kept at later))
        | inr new ↦
            let grown : length (add artifact.id ids) ≡ suc (length ids) =
              unfold add in rw new (length-concat artifact.id ids) in
            let bound = length-add_linked id artifacts (add artifact.id ids) in
            let later : length (add_linked id artifacts (add artifact.id ids)) ≡ length ids =
              rw own at h in
            absurd (omega arith)
      ]
    ]

-- A tool call that has an id, and whose own artifacts are listed without repetition, has exactly
-- these and the artifacts that name the call as theirs.
pub has-with_linked_artifact_ids :
    (k id : String) (item : ToolCallItem) (artifacts : List ReviewArtifactSummary)
    → HasNoRepeats item.review_artifact_ids
    → item.tool_call_id ≡ some id
    → is_empty id ≡ false
    → has k (with_linked_artifact_ids item artifacts).review_artifact_ids
      ≡ (has k item.review_artifact_ids || is_linked k id artifacts)
unfolding with_linked_artifact_ids all_artifact_ids
has-with_linked_artifact_ids k id item artifacts v there named =
    let ids = item.review_artifact_ids in
    let known : has k (add_linked id artifacts (unique ids))
        ≡ (has k ids || is_linked k id artifacts) =
      has-add_linked k id artifacts (unique ids) ∙ rw (has-unique k ids) refl in
    rw (there, named)
      (elim (Bool-cases (nat_eq (length (add_linked id artifacts (unique ids))) (length ids))) [
        | inr more ↦ rw more known
        | inl same ↦
            let own : unique ids ≡ ids = unique_lem ids v in
            let equal : length (add_linked id artifacts ids) ≡ length ids =
              ap (λ xs. length (add_linked id artifacts xs)) (sym own) ∙ ground arith in
            rw same (
              ap (λ xs. has k xs)
                (sym (add_linked_same id artifacts ids equal)
                  ∙ ap (λ xs. add_linked id artifacts xs) (sym own))
              ∙ known)
      ])
