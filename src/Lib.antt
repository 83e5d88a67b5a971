-- ===== src/Lib.antt =====
-- The front end of ACP Web UI, a local web page for agents of the Agent Client Protocol. The page keeps
-- the session that is open (its messages, timeline, approvals and continuity), the inbox of sessions that
-- wait for an approval, the list of sessions and the text that streams in. The server sends events over a
-- web socket; pure functions, the reducers, say what each event does to that state. The development
-- models those functions and proves what they keep.
--
-- Which file models what (paths from the root of the repository):
--
--  * frontend/src/types.ts: Types, with a child for each group of types. An object is a record, a union is
--    a data type with the constructors of the source. A field that may be null or absent is an `Option`,
--    a JSON value that the code does not look into is `Json`.
--  * frontend/src/realtime.ts: Realtime. `apply_realtime_event` is applyRealtimeEvent, with a clause for
--    each case; the children Snapshot, Continuity, Queue, Permissions and Timeline hold its helpers. `run`
--    applies a sequence of events. The other children are proofs: Approvals (the queue of approvals), Inbox,
--    Identity (which session an event touches), Restore (continuity), Streaming, Timeline/Laws and
--    Queue/Ordered.
--  * frontend/src/app/sessionList.ts: SessionList. `apply_session_list_realtime` is
--    applySessionListRealtime; Activity is latestTimestamp and sessionDetailActivityAt. Proofs are in Laws,
--    ActivityLaws, Recency and Agreement: the last relates the list to the open session, since the page
--    gives every event to both reducers.
--  * frontend/src/app/scopedSessionListRefresh.ts: Refresh, with the refreshes of the list that responses
--    may have overtaken, as steps on the refresh state.
--  * frontend/src/App.tsx, with app/types.ts, app/liveAssistant.ts, app/projectionRecovery.ts,
--    app/sessionListLoad.ts and fallbackPermissionModes of utils/permissionMode.ts: App. State is UiState;
--    Agents, Details, Recovery, Messages and Actions are the changes of the state, each as a function of the
--    state and of what the event, the response or the user brings; Steps puts them in sequences. A callback
--    that calls setState several times, around requests, is one function for each of the calls. Initial is
--    the first load and Busy is runBusy, with how the promise of an action ends. Proofs are in Tidy,
--    Resolve, Opened, Removal and AgentsLaws.
--  * frontend/src/app/sessionCockpit.ts: Cockpit, and frontend/src/app/workspaceSummary.ts: Summary, with
--    their proofs in Laws.
--  * frontend/src/utils/toolDisplay.ts: Tools. `tool_call_display` (in Call) is toolCallDisplay; Values and
--    Search read a payload, Shell the command that is inside a call of a shell, Kind sorts calls into kinds
--    and Display makes the lines of text. Proofs are in Laws, Details and Search.
--  * frontend/src/app/timelineBlocks.ts: Blocks. `build_timeline_blocks` (in Build) is buildTimelineBlocks;
--    Context and Ids are the sets and maps that it makes first, Groups the groups of tool calls. Proofs are
--    in Shown, Status, Laws and Counts.
--  * frontend/src/utils/browserNotifications.ts: Notify. The host's permission is a parameter, and what is shown
--    is a list.
--  * frontend/src/utils/speechRecognition.ts: Voice. Support, Transcript and Adapter are the functions of the
--    source, the adapter as a step on the variables of its closure; Laws and Words are proofs.
--  * frontend/src/app/workspaceAgentNavigation.ts, lastSessionProfile.ts of the same folder, and
--    frontend/src/features/sessions/sessionCreateMode.ts: Stored. The storage of the browser is a state;
--    JSON.stringify and JSON.parse are a parameter, `Codec`, and the round trips assume that what was
--    written is read as the value that it was.
--  * Pages: the functions that the pages share. Labels is utils/permissionMode.ts, utils/sessionStatus.ts,
--    utils/format.ts and app/sessionCreationRoutes.ts; Config is app/sessionConfig.ts; Payload is
--    utils/payload.ts and utils/imagePreview.ts; Prompt and Messages are
--    features/sessions/sessionPaneHelpers.ts and app/timeline.ts. Proofs are in Laws and Spread.
--  * `PromptComposer` of frontend/src/features/sessions/SessionPane.tsx: Composer. State is its variables and
--    references, Draft and Recording its handlers, Files its helpers, and Step the events with the effects
--    that follow them. The recorder, the reader of files and the server answer by events. Proofs are in
--    Leaves, Handled, Streams and Lost (the microphone), Images and Faults.
--  * Common holds what the parts share: lists, sets of texts, a stable sort, arrays with a text key, `Host`
--    and `Clock`, and texts, with the children of Text for splitting, UTF-16 lengths, numbers and words.
--
-- How the source is read. `Host` stands for Date.parse and localeCompare, `Clock` for what one handler
-- reads of the time: they are parameters of the model. Times are natural numbers, counted from the
-- earliest time that a Date can hold; what Date.parse cannot read is `none`, and a comparator that
-- computes NaN counts as zero, as Array.prototype.sort has it. That sort is stable, and its order is
-- decided by whether the comparator is positive; Common/Sort is insertion sort, which gives the same
-- result for every comparator that is an order, and the theorems on order assume one. Texts are sequences of
-- Unicode scalar values, without lone surrogates; they are compared by their UTF-16 units. Counts are
-- natural numbers. Statuses are texts, as the open unions of the source are. A loop is a recursion on
-- a list or a text. Two have fuel: the search of a payload, which the source stops at depth 4, takes 5
-- rounds, and a number is written with as many rounds as its value, of which each divides by ten.
--
-- Not modelled: the Go server, SQL migrations and tests, which are not in the language of the front end;
-- the React components but the composer of a prompt, and of that the templates, the skills and what is
-- drawn; routes and styles; api.ts, which sends requests.
pub mod Common
pub mod Types
pub mod Realtime
pub mod Refresh
pub mod SessionList
pub mod App
pub mod Cockpit
pub mod Summary
pub mod Tools
pub mod Blocks
pub mod Notify
pub mod Voice
pub mod Stored
pub mod Pages
pub mod Composer
pub mod Samples
