-- ===== src/SessionList/Activity.antt =====
-- sessionList.ts: the latest of several times, and the time of a session's latest activity.
use acp_webui.Common.{
  Option, none, some, List, [], ◌∷◌, ◌++◌, map, String, ℕ, Bool, true, false, not, ◌&&◌, ◌||◌, any,
  is_empty, is_some, ltb, nat_eq, or_else, text_gt, trim, truthy, if◌then◌else◌,
}
use acp_webui.Common.Host.{Host}
use acp_webui.Types.{SessionDetail, item_timestamp}

-- The variables of the loop; `best_time` is `none` for minus infinity.
pub record Best : Type 0 where
  pub best_value : Option String
  pub best_time : Option ℕ

-- `time > bestTime`
abbrev pub later_than : ℕ → Option ℕ → Bool
later_than time none = true
later_than time (some best) = ltb best time

-- `time === bestTime`
abbrev pub same_time : ℕ → Option ℕ → Bool
same_time time none = false
same_time time (some best) = nat_eq time best

-- `!bestValue || trimmed > bestValue`
abbrev pub beats : String → Option String → Bool
beats trimmed none = true
beats trimmed (some best) = is_empty best || text_gt trimmed best

-- One round with a text that is not blank.
unfoldable pub consider : Host → Best → String → Best
consider h b trimmed = elim (h.parse_date trimmed) [
  | none ↦ if is_some b.best_value then b else record b { best_value = some trimmed }
  | some time ↦
      if later_than time b.best_time || same_time time b.best_time && beats trimmed b.best_value
      then record { best_value = some trimmed; best_time = some time }
      else b
]

unfoldable pub latest_round : Host → Best → Option String → Best
unfolding consider
latest_round h b none = b
latest_round h b (some value) =
    let trimmed = trim value in if is_empty trimmed then b else consider h b trimmed

unfoldable pub latest_from : Host → Best → List (Option String) → Best
latest_from h b [] = b
latest_from h b (value ∷ values) = latest_from h (latest_round h b value) values

unfoldable pub latest_timestamp : Host → List (Option String) → Option String
unfolding latest_from
latest_timestamp h values =
    (latest_from h (record { best_value = none; best_time = none }) values).best_value

-- `value?.trim()` is truthy
abbrev pub has_text : Option String → Bool
has_text none = false
has_text (some value) = not (is_empty (trim value))

unfoldable pub activity_candidates : SessionDetail → List (Option String)
activity_candidates d =
    d.session.native_updated_at
    ∷ elim d.active_turn [ none ↦ none | some turn ↦ some turn.started_at ]
    ∷ (map (λ item. some (item_timestamp item)) d.timeline
        ++ (map (λ a. some a.created_at) d.review_artifacts
            ++ (map (λ p. some (or_else p.resolved_at p.created_at))
                  (or_else d.pending_permissions [])
                ++ map (λ p. some (or_else p.submitted_at p.created_at))
                    (or_else d.queued_prompts []))))

unfoldable pub session_detail_activity_at : Host → SessionDetail → String
unfolding activity_candidates latest_timestamp
session_detail_activity_at h d =
    let activity = activity_candidates d in
    let candidates =
      if not (any has_text activity)
        || (not (truthy d.session.external_session_id) || not (truthy d.session.native_updated_at))
      then activity ++ some d.session.created_at ∷ []
      else activity in
    or_else (latest_timestamp h candidates) d.session.updated_at
