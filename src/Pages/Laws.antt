-- ===== src/Pages/Laws.antt =====
-- About frontend/src/features/sessions/sessionPaneHelpers.ts and frontend/src/app/sessionConfig.ts.
use acp_webui.Common.{
  String, ◌≤◌, Bool, false, not, ◌||◌, Option, none, some, ◌++◌, find, find-elim, map, is_empty,
  is_some, ltb, ◌==◌, ◌<>◌, ◌≡◌, refl, sym, ap, ap₂, ◌∙◌, arith, Bool-cases, inl, inr,
}
use mathlib.Core.List.{append-nil}
use text.Mathlib.TextLemmas.{append_assoc, cons-append}
use acp_webui.Common.Text.{trim, trim_end}
use acp_webui.Common.Text.Split.{split_lines, unix_lines}
use acp_webui.Common.Text.Units
use acp_webui.Common.Text.Words.{
  ends-append_space, no_words, words, words-append, words-append_space, words-trim, words-trim_end,
}
use acp_webui.Types.{ConnectionStatus, SessionDetail}
use acp_webui.Pages.Config.{connection_reason, session_config_disabled_reason}
use acp_webui.Pages.Prompt.{
  default_prompt_template_title, insert_prompt_template_body, shortened_title,
}

-- The words of a prompt after a template is inserted are those that it had, then those of the
-- template, none joined and none lost.
pub words-insert_prompt_template_body :
    (current body : String)
    → words (insert_prompt_template_body current body) ≡ words current ++ words body
unfolding insert_prompt_template_body
words-insert_prompt_template_body current body = elim (Bool-cases (is_empty (trim body))) [
  | inl silent ↦ rw silent (
      sym (append-nil (words current))
      ∙ ap (λ ws. words current ++ ws) (sym (no_words body silent)))
  | inr worded ↦ elim (Bool-cases (is_empty (trim current))) [
    | inl blank ↦ rw (worded, blank, no_words current blank) (words-trim body)
    | inr typed ↦
        rw (worded, typed)
          (words_apart (trim_end current) (trim body)
            ∙ ap₂ (λ vs ws. vs ++ ws) (words-trim_end current) (words-trim body))
  ]
]
  where
    words_apart : (s t : String) → words (s <> "\n\n" <> t) ≡ words s ++ words t
    words_apart s t =
        ap words (sym (append_assoc s "\n\n" t) ∙ ap (λ u. u <> t) (sym (append_assoc s "\n" "\n")))
        ∙ words-append ((s <> "\n") <> "\n") t (ends-append_space "\n" refl (s <> "\n"))
        ∙ ap (λ ws. ws ++ words t)
            (words-append_space "\n" refl (s <> "\n") ∙ words-append_space "\n" refl s)

shortened_title_le : (line : Option String) → Units.length (shortened_title line) ≤ 60
unfolding shortened_title
shortened_title_le none = unfold Units.length in omega arith
shortened_title_le (some line) = elim (Bool-cases (ltb 60 (Units.length line))) [
  | inl long ↦
      let kept = Units.length-take 57 line in
      rw long
        (rw (Units.length-append (Units.take 57 line) "...") (unfold Units.length in omega arith))
  | inr short ↦ rw short (ground arith)
]

end-is_empty : (s : String) → is_empty (s <> "...") ≡ false
end-is_empty String.[] = refl
end-is_empty (String.◌∷◌ c s) = rw (cons-append c s "...") refl

shown_line :
    (line : String) → is_empty line ≡ false → is_empty (shortened_title (some line)) ≡ false
unfolding shortened_title
shown_line line h = elim (Bool-cases (ltb 60 (Units.length line))) [
  | inl long ↦ rw long (end-is_empty (Units.take 57 line))
  | inr short ↦ rw short h
]

-- The title of a prompt is never empty and has at most 60 UTF-16 code units, whatever the prompt.
pub default_prompt_template_title-fits :
    (body : String)
    → (is_empty (default_prompt_template_title body) ≡ false)
      × (Units.length (default_prompt_template_title body) ≤ 60)
unfolding default_prompt_template_title
default_prompt_template_title-fits body =
    let lines = map trim (split_lines (unix_lines body)) in
    (
      find-elim (λ line. is_empty (shortened_title line) ≡ false) (λ line. not (is_empty line))
          (unfold shortened_title in refl) (λ line h. shown_line line (ground arith)) lines,
      shortened_title_le (find (λ line. not (is_empty line)) lines),
    )

-- A connection that is told and not ready.
abbrev pub is_unready : Option ConnectionStatus → Bool
is_unready none = false
is_unready (some connection) = not (connection.state == "ready")

reason_unready :
    (d : SessionDetail) (connection : Option ConnectionStatus)
    → is_some (connection_reason d connection) ≡ is_unready connection
unfolding connection_reason
reason_unready d none = refl
reason_unready d (some connection) = elim (Bool-cases (connection.state == "ready")) [
  | inl ready ↦ rw ready refl
  | inr unready ↦ rw unready refl
]

-- A change of a session's configuration is refused, with a reason, exactly if the session runs, waits
-- for an approval or has a pending one, cannot be continued, or has an agent that is not ready.
pub session_config_disabled_reason-is_some :
    (d : SessionDetail) (connection : Option ConnectionStatus)
    → is_some (session_config_disabled_reason d connection) ≡ (
        d.session.status == "running"
        || d.session.status == "waiting_approval"
        || is_some d.pending_permission
        || not d.continuable
        || is_unready connection)
unfolding session_config_disabled_reason
session_config_disabled_reason-is_some d connection =
    elim (Bool-cases (d.session.status == "running")) [
      | inl runs ↦ rw runs refl
      | inr free ↦
          elim (Bool-cases
            (d.session.status == "waiting_approval" || is_some d.pending_permission)) [
              | inl waits ↦ rw (free, waits) (ground arith)
              | inr settled ↦ elim (Bool-cases d.continuable) [
                | inl goes_on ↦
                    let unready = reason_unready d connection in
                    rw (free, settled, goes_on) (ground arith)
                | inr over ↦ rw (free, settled, over) (ground arith)
              ]
            ]
    ]
