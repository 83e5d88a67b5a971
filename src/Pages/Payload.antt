-- ===== src/Pages/Payload.antt =====
-- frontend/src/utils/payload.ts and frontend/src/utils/imagePreview.ts: what a payload shows.
use acp_webui.Common.{
  String, not, ◌||◌, Option, none, some, List, [], ◌∷◌, map, if◌then◌else◌, is_empty, or_else,
  or_else?, ◌==◌, ◌<>◌,
}
use acp_webui.Common.Text.Split.{join, nonempty}
use acp_webui.Types.{Fields, Json, ReviewArtifactSummary, field_of}
use acp_webui.Tools.Values.{as_record, members, string_field, truthy_text}
use text.Mathlib.Text.{starts_with}

-- The first of some fields that is a text.
abbrev first_text : Fields → List String → Option String
unfolding string_field
first_text fields [] = none
first_text fields (key ∷ keys) = or_else? (string_field (some fields) key) (first_text fields keys)

-- The first argument is `JSON.stringify(value, null, 2)`.
unfoldable pub payload_text : (Json → String) → Json → String
unfolding first_text
payload_text pretty (Json.text s) = s
payload_text pretty (Json.object fields) =
    or_else (first_text fields ("diff" ∷ "markdown" ∷ "content" ∷ "text" ∷ "output" ∷ []))
      (pretty (Json.object fields))
payload_text pretty (Json.array vs) = pretty (Json.array vs)
payload_text pretty Json.null = pretty Json.null
payload_text pretty (Json.boolean b) = pretty (Json.boolean b)
payload_text pretty (Json.number n) = pretty (Json.number n)

abbrev parts_text : Option Json → String
unfolding join string_field as_record
parts_text (some (Json.array vs)) =
    join "\n"
      (nonempty (map (λ part. or_else (string_field (as_record part) "text") "") (members vs)))
parts_text _ = ""

unfoldable pub tool_summary : (Json → String) → Json → String
unfolding parts_text field_of
tool_summary pretty (Json.object fields) =
    or_else (truthy_text (some (parts_text (field_of "content" fields))))
      (pretty (Json.object fields))
tool_summary pretty (Json.array vs) = pretty (Json.array vs)
tool_summary pretty (Json.text s) = "No additional details."
tool_summary pretty Json.null = "No additional details."
tool_summary pretty (Json.boolean b) = "No additional details."
tool_summary pretty (Json.number n) = "No additional details."

pub record ImagePreview : Type 0 where
  pub src : String
  pub name : String
  pub caption : Option String
  pub source_path : Option String

abbrev record_in : Option Json → Option Fields
unfolding as_record
record_in none = none
record_in (some value) = as_record value

unfoldable pub image_preview_from_payload : Option Json → String → Option ImagePreview
unfolding record_in string_field
image_preview_from_payload payload fallback_name =
    let record_ = record_in payload in
    let mime_type = or_else (string_field record_ "mimeType") "" in
    let data_ = or_else (string_field record_ "data") "" in
    if not (starts_with mime_type "image/") || is_empty data_
    then none
    else some (record {
      src = "data:" <> mime_type <> ";base64," <> data_;
      name = or_else (truthy_text (string_field record_ "name")) fallback_name;
      caption = truthy_text (string_field record_ "caption");
      source_path = truthy_text (string_field record_ "sourcePath");
    })

unfoldable pub image_preview_from_artifact : ReviewArtifactSummary → Option ImagePreview
unfolding image_preview_from_payload
image_preview_from_artifact artifact =
    if artifact.kind == "image"
    then image_preview_from_payload artifact.preview artifact.title
    else none
