-- ===== src/Summary/Tests.antt =====
-- The summary of a workspace at concrete inputs.
use acp_webui.Common.{List, [], ◌∷◌, String, ◌==◌, ◌≡◌, ◌&&◌, ◌||◌, any, filter, length}
use acp_webui.Common.Sets.{has}
use acp_webui.Common.Sets.Laws.{HasNoRepeats}
use acp_webui.Samples.{sample_detail, sample_entry, sample_host, sample_workspace}
use acp_webui.Types.{SessionListItem}
use acp_webui.SessionList.{session_detail_to_list_item}
use acp_webui.Summary.{summarize_workspace, waits}
use acp_webui.Summary.Laws.{pending_approvals_lem}

abbrev rows : List SessionListItem
rows = session_detail_to_list_item sample_host sample_detail ∷ []

pending_approvals_lem_example :
    (ids : List String) × ((summarize_workspace sample_host sample_workspace rows
        (sample_entry ∷ [])).pending_approvals
      ≡ length ids)
    × HasNoRepeats ids
    × ((k : String)
        → has k ids ≡ (
            any
              (λ item. waits item && item.session.id == k)
              (filter (λ item. item.workspace.id == sample_workspace.id) rows)
            || any
                (λ item. item.workspace.id == sample_workspace.id && item.session.id == k)
                (sample_entry ∷ [])))
pending_approvals_lem_example =
    pending_approvals_lem sample_host sample_workspace rows (sample_entry ∷ [])
