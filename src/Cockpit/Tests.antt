-- ===== src/Cockpit/Tests.antt =====
-- The cockpit at concrete inputs.
use acp_webui.Common.{none, some, List, [], ◌∷◌, refl, arith, ◌&&◌, filter}
use acp_webui.Common.Sort.Laws.{Pairwise}
use mathlib.Core.List.{Perm}
use acp_webui.Samples.{sample_detail, sample_host, session_named}
use acp_webui.Types.{SessionListItem}
use acp_webui.Realtime.Queue.Ordered.{IsCollation}
use acp_webui.SessionList.{session_detail_to_list_item}
use acp_webui.Cockpit.{
  SessionStatusFilter, filter_cockpit_sessions, session_matches_agent, session_matches_status,
}
use acp_webui.Cockpit.Laws.{ComesFirst, filter_cockpit_sessions-Pairwise}

abbrev held_item : SessionListItem
held_item = record (session_detail_to_list_item sample_host sample_detail) {
  last_activity_at = "t";
}

abbrev quiet_item : SessionListItem
quiet_item = record held_item {
  session = session_named "s2" "idle";
  pending_permission = none;
  last_activity_at = "ttt";
}

abbrev rows : List SessionListItem
rows = held_item ∷ quiet_item ∷ []

by_length-IsCollation : IsCollation sample_host
by_length-IsCollation = record { asym = λ a b h. ground arith; trans = λ a b c h k. ground arith }

filter_cockpit_sessions-Pairwise_example :
    Pairwise
      (ComesFirst sample_host)
      (filter_cockpit_sessions sample_host rows SessionStatusFilter.all (some "codex"))
    × Perm (filter_cockpit_sessions sample_host rows SessionStatusFilter.all (some "codex")) (
        filter
          (λ item.
            session_matches_status item SessionStatusFilter.all
            && session_matches_agent item (some "codex"))
          rows)
filter_cockpit_sessions-Pairwise_example =
    filter_cockpit_sessions-Pairwise sample_host by_length-IsCollation rows SessionStatusFilter.all
      (some "codex") ((1, refl), ((3, refl), tt))
