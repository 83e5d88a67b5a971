-- ===== src/Tools/Details.antt =====
-- About frontend/src/utils/toolDisplay.ts: no detail of a tool call stands twice.
use acp_webui.Common.{
  String, Option, none, some, List, [], ◌∷◌, ◌≡◌, ◌≢◌, refl, sym, ◌∙◌, arith, Bool, false, not,
  ◌&&◌, ◌||◌, Bool-cases, inl, inr, All, any, ◌==◌, eq_iff, eq_refl,
}
use acp_webui.Common.Sets.{has}
use acp_webui.Common.Keyed.Laws.{HasDistinctKeys}
use acp_webui.Tools.Display.{ToolCallDisplayDetail, detail_key, unique_details, unseen_details}

abbrev pub has_detail : String → List ToolCallDisplayDetail → Bool
has_detail k items = any (λ item. detail_key item == k) items

-- Whether one of the details that are there has a key.
abbrev pub offers : String → List (Option ToolCallDisplayDetail) → Bool
offers k [] = false
offers k (none ∷ details) = offers k details
offers k (some item ∷ details) = detail_key item == k || offers k details

has_detail-unseen_details :
    (k : String) (seen : List String) (details : List (Option ToolCallDisplayDetail))
    → has_detail k (unseen_details seen details) ≡ (not (has k seen) && offers k details)
unfolding unseen_details
has_detail-unseen_details k seen [] = ground arith
has_detail-unseen_details k seen (none ∷ details) = has_detail-unseen_details k seen details
has_detail-unseen_details k seen (some item ∷ details) =
    elim (Bool-cases (has (detail_key item) seen)) [
      | inl old ↦ rw old (
          has_detail-unseen_details k seen details ∙ elim (Bool-cases (detail_key item == k)) [
            | inl same ↦
                let e = (eq_iff (detail_key item) k).0 same in rw (same, sym e) (rw old refl)
            | inr other ↦ rw other refl
          ])
      | inr new ↦
          let later = has_detail-unseen_details k (detail_key item ∷ seen) details in
          rw new (elim (Bool-cases (detail_key item == k)) [
            | inl same ↦ let e = (eq_iff (detail_key item) k).0 same in rw (same, sym e, new) refl
            | inr other ↦ rw other (later ∙ rw other refl)
          ])
    ]

absent :
    (k : String) (items : List ToolCallDisplayDetail)
    → has_detail k items ≡ false
    → All (λ y. detail_key y ≢ k) items
absent k [] h = tt
absent k (item ∷ items) h =
    (ground (arith, eq_iff (detail_key item) k), absent k items (ground arith))

unseen_details-HasDistinctKeys :
    (seen : List String) (details : List (Option ToolCallDisplayDetail))
    → HasDistinctKeys detail_key (unseen_details seen details)
unfolding unseen_details
unseen_details-HasDistinctKeys seen [] = tt
unseen_details-HasDistinctKeys seen (none ∷ details) = unseen_details-HasDistinctKeys seen details
unseen_details-HasDistinctKeys seen (some item ∷ details) =
    elim (Bool-cases (has (detail_key item) seen)) [
      | inl old ↦ rw old (unseen_details-HasDistinctKeys seen details)
      | inr new ↦ rw new (
        absent (detail_key item) _ (
            has_detail-unseen_details (detail_key item) (detail_key item ∷ seen) details
            ∙ rw (eq_refl (detail_key item)) refl),
        unseen_details-HasDistinctKeys (detail_key item ∷ seen) details,
      )
    ]

-- The details that are shown are those that are there, each once.
pub unique_details_lem :
    (details : List (Option ToolCallDisplayDetail))
    → HasDistinctKeys detail_key (unique_details details)
      × ((k : String) → has_detail k (unique_details details) ≡ offers k details)
unfolding unique_details
unique_details_lem details =
    (unseen_details-HasDistinctKeys [] details, λ k. has_detail-unseen_details k [] details)
