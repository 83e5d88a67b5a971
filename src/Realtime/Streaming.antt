-- ===== src/Realtime/Streaming.antt =====
-- About the streamed text of frontend/src/realtime.ts: the deltas of a turn and the message that
-- ends it.
use text.Mathlib.TextLemmas.{append_assoc, append-nil}
use acp_webui.Common.{
  none, some, List, [], ◌∷◌, ◌++◌, map, String, ◌<>◌, ◌≡◌, ◌∙◌, ap, sym, eq_refl, arith,
}
use acp_webui.Common.Host.{Host, Clock}
use acp_webui.Types.{RealtimeEvent, SessionDetail}
use acp_webui.Realtime.{apply_realtime_event, run}
use acp_webui.Realtime.Snapshot.{AppSnapshot, assistant_message, on_current}

-- All the deltas in a row.
abbrev pub concat : List String → String
concat [] = ""
concat (s ∷ ss) = s <> concat ss

abbrev pub deltas : Clock → String → List String → List (Clock × RealtimeEvent)
deltas c id ss = map (λ s. (c, RealtimeEvent.text_delta id s)) ss

on_current_self :
    (state : AppSnapshot) (rest : SessionDetail → AppSnapshot) {d : SessionDetail}
    → state.current_session ≡ some d
    → on_current state d.session.id rest ≡ rest d
unfolding on_current
on_current_self state rest {d} e = ground (arith, eq_refl d.session.id)

-- Deltas of the open session, in a row, change nothing but the streamed text, which they extend by
-- their concatenation, in order.
pub run-deltas :
    (h : Host) (c : Clock) (state : AppSnapshot) {d : SessionDetail} (ss : List String)
    → state.current_session ≡ some d
    → run h state (deltas c d.session.id ss)
      ≡ record state { live_assistant = state.live_assistant <> concat ss }
unfolding run apply_realtime_event
run-deltas h c state [] e =
    ap (λ t. record state { live_assistant = t }) (sym (append-nil state.live_assistant))
run-deltas h c state {d} (s ∷ ss) e =
    ap (λ t. run h t (deltas c d.session.id ss)) (on_current_self state _ e)
    ∙ run-deltas h c (record state { live_assistant = state.live_assistant <> s }) ss e
    ∙ ap (λ t. record state { live_assistant = t })
        (append_assoc state.live_assistant s (concat ss))

-- Two ways to cut the same text lead to the same state.
pub run-deltas_cut :
    (h : Host) (c : Clock) (state : AppSnapshot) {d : SessionDetail} (ss ts : List String)
    → state.current_session ≡ some d
    → concat ss ≡ concat ts
    → run h state (deltas c d.session.id ss) ≡ run h state (deltas c d.session.id ts)
run-deltas_cut h c state ss ts e same =
    run-deltas h c state ss e
    ∙ ap (λ t. record state { live_assistant = state.live_assistant <> t }) same
    ∙ sym (run-deltas h c state ts e)

-- Deltas of the open session and then its whole message: a message of the assistant with that
-- content is appended once, dated when it comes in, and nothing of the streamed text stays.
pub run-deltas-message :
    (h : Host) (c : Clock) (state : AppSnapshot) {d : SessionDetail} (ss : List String)
    (content : String)
    → state.current_session ≡ some d
    → apply_realtime_event h c
        (run h state (deltas c d.session.id ss))
        (RealtimeEvent.assistant_message d.session.id content)
      ≡ record state {
        current_session = some (record d {
          messages =
              d.messages
              ++ record {
                id = "live-" <> c.millis;
                session_id = d.session.id;
                role = "assistant";
                content = content;
                content_blocks = none;
                status = "idle";
                created_at = c.iso;
              }
                ∷ [];
        });
        live_assistant = "";
      }
unfolding apply_realtime_event assistant_message
run-deltas-message h c state {d} ss content e =
    rw (run-deltas h c state ss e)
      (on_current_self (record state { live_assistant = state.live_assistant <> concat ss }) _ e)
