-- ===== src/Notify/Laws.antt =====
-- About frontend/src/utils/browserNotifications.ts: the notifications of a run of changes.
use acp_webui.Common.{
  String, ℕ, suc, ◌+◌, Bool, true, false, not, Option, none, some, List, [], ◌∷◌, ◌++◌, filter,
  length, if◌then◌else◌, ◌≡◌, refl, sym, ap, ◌∙◌, ◌==◌, arith, Bool-cases, inl, inr,
}
use acp_webui.Common.Sets.{add, add_all, has}
use acp_webui.Types.{RealtimeEvent, SessionDetail}
use acp_webui.Notify.{
  Notification, Transition, browser_notification_state, notify_completed,
  notify_for_realtime_transition, notify_permission_request, notify_turn_complete,
  show_browser_notification, turn_completion_notification_key,
}

abbrev listed : Option Notification → List Notification
listed none = []
listed (some n) = n ∷ []

-- A run of changes: the turns that are known to be complete, and the notifications in their order.
unfoldable pub notify_run :
    List Transition → List String → Option String → List String × List Notification
notify_run [] completed source = (completed, [])
notify_run (t ∷ ts) completed source =
    let (known, shown) = notify_for_realtime_transition t completed source in
    let (last, later) = notify_run ts known source in (last, listed shown ++ later)

-- The key of the turn that a change completes.
abbrev pub completed_key : Transition → Option String
completed_key t = elim t.event [
  | RealtimeEvent.active_turn_updated id status turn ↦
      turn_completion_notification_key t.previous t.next
  | _ ↦ none
]

abbrev pub with_key : Option String → List String → List String
with_key none keys = keys
with_key (some key) keys = key ∷ keys

abbrev pub completed_keys : List Transition → List String
completed_keys [] = []
completed_keys (t ∷ ts) = with_key (completed_key t) (completed_keys ts)

abbrev pub is_request : Transition → Bool
is_request t = elim t.event [ RealtimeEvent.permission_requested request ↦ true | _ ↦ false ]

abbrev pub is_titled : String → Notification → Bool
is_titled title n = n.title == title

abbrev pub count_titled : String → List Notification → ℕ
count_titled title ns = length (filter (is_titled title) ns)

abbrev known_with : Option String → List String → List String
known_with none completed = completed
known_with (some key) completed = add key completed

completed-known_with :
    (previous next : Option SessionDetail) (completed : List String) (source : Option String)
    → (notify_completed (turn_completion_notification_key previous next) next completed source).0
      ≡ known_with (turn_completion_notification_key previous next) completed
unfolding notify_completed turn_completion_notification_key add
completed-known_with none next completed source = refl
completed-known_with (some previous) none completed source = refl
completed-known_with (some previous) (some next) completed source =
    go (turn_completion_notification_key (some previous) (some next))
  where
    go :
        (key : Option String)
        → (notify_completed key (some next) completed source).0 ≡ known_with key completed
    go none = refl
    go (some key) = elim (Bool-cases (has key completed)) [
      | inl old ↦ rw old refl
      | inr new ↦ rw new refl
    ]

-- What a change that completes a turn shows: one notification if its key is new.
abbrev is_new : Option String → List String → Bool
is_new none completed = false
is_new (some key) completed = not (has key completed)

completed-is_new :
    (previous next : Option SessionDetail) (completed : List String)
    → count_titled "Turn complete" (
        listed (
          (notify_completed
            (turn_completion_notification_key previous next)
            next
            completed
            (some "granted")).1))
      ≡ (if is_new (turn_completion_notification_key previous next) completed then 1 else 0)
unfolding notify_completed turn_completion_notification_key add notify_turn_complete
    show_browser_notification browser_notification_state
completed-is_new none next completed = refl
completed-is_new (some previous) none completed = refl
completed-is_new (some previous) (some next) completed =
    go (turn_completion_notification_key (some previous) (some next))
  where
    go :
        (key : Option String)
        → count_titled "Turn complete"
            (listed ((notify_completed key (some next) completed (some "granted")).1))
          ≡ (if is_new key completed then 1 else 0)
    go none = refl
    go (some key) = elim (Bool-cases (has key completed)) [
      | inl old ↦ rw old refl
      | inr new ↦ rw new refl
    ]

completed_no_request :
    (key : Option String) (next : Option SessionDetail) (completed : List String)
    → count_titled "Approval needed"
        (listed ((notify_completed key next completed (some "granted")).1))
      ≡ 0
unfolding notify_completed add notify_turn_complete show_browser_notification
    browser_notification_state
completed_no_request none next completed = refl
completed_no_request (some key) none completed = refl
completed_no_request (some key) (some next) completed = elim (Bool-cases (has key completed)) [
  | inl old ↦ rw old refl
  | inr new ↦ rw new refl
]

-- One change, with the permission to show notifications.
abbrev granted_step : Transition → List String → List String × Option Notification
granted_step t completed = notify_for_realtime_transition t completed (some "granted")

module _ (previous next : Option SessionDetail) (completed : List String) where
  abbrev change_by : RealtimeEvent → Transition
  change_by event = record { previous = previous; next = next; event = event }

  step-known :
      (event : RealtimeEvent)
      → (granted_step (change_by event) completed).0
        ≡ known_with (completed_key (change_by event)) completed
  unfolding notify_for_realtime_transition
  step-known (RealtimeEvent.active_turn_updated id status turn) =
      completed-known_with previous next completed (some "granted")
  step-known _ = refl

  step-turns :
      (event : RealtimeEvent)
      → count_titled "Turn complete" (listed ((granted_step (change_by event) completed).1))
        ≡ (if is_new (completed_key (change_by event)) completed then 1 else 0)
  unfolding notify_for_realtime_transition notify_permission_request show_browser_notification
      browser_notification_state
  step-turns (RealtimeEvent.active_turn_updated id status turn) =
      completed-is_new previous next completed
  step-turns _ = refl

  step-requests :
      (event : RealtimeEvent)
      → count_titled "Approval needed" (listed ((granted_step (change_by event) completed).1))
        ≡ (if is_request (change_by event) then 1 else 0)
  unfolding notify_for_realtime_transition notify_permission_request show_browser_notification
      browser_notification_state
  step-requests (RealtimeEvent.active_turn_updated id status turn) =
      completed_no_request (turn_completion_notification_key previous next) next completed
  step-requests _ = refl

count_titled-append :
    (title : String) (ms ns : List Notification)
    → count_titled title (ms ++ ns) ≡ count_titled title ms + count_titled title ns
count_titled-append title [] ns = omega arith
count_titled-append title (m ∷ ms) ns = elim (Bool-cases (is_titled title m)) [
  | inl titled ↦ rw titled (rw (count_titled-append title ms ns) (omega arith))
  | inr other ↦ rw other (count_titled-append title ms ns)
]

length-concat : (x : String) (xs : List String) → length (xs ++ x ∷ []) ≡ suc (length xs)
length-concat x [] = refl
length-concat x (y ∷ ys) = ap suc (length-concat x ys)

length-known_with :
    (key : Option String) (completed : List String)
    → length (known_with key completed) ≡ length completed + (if is_new key completed then 1 else 0)
unfolding add
length-known_with none completed = omega arith
length-known_with (some key) completed = elim (Bool-cases (has key completed)) [
  | inl old ↦ rw old (omega arith)
  | inr new ↦ rw (new, length-concat key completed) (omega arith)
]

add_all-with_key :
    (key : Option String) (keys completed : List String)
    → add_all (with_key key keys) completed ≡ add_all keys (known_with key completed)
unfolding add_all
add_all-with_key none keys completed = refl
add_all-with_key (some key) keys completed = refl

-- Over a run of changes, with the permission to show notifications, the set of completed turns
-- gains the keys of the turns that the changes complete, one notification of a completed turn is
-- shown for each key that the set gains, and one notification for each approval that is requested.
pub notify_run_lem :
    (ts : List Transition) (completed : List String)
    → ((notify_run ts completed (some "granted")).0 ≡ add_all (completed_keys ts) completed)
      × (length (add_all (completed_keys ts) completed)
          ≡ length completed
            + count_titled "Turn complete" (notify_run ts completed (some "granted")).1)
      × (count_titled "Approval needed" (notify_run ts completed (some "granted")).1
          ≡ length (filter is_request ts))
unfolding notify_run add_all
notify_run_lem [] completed = (refl, omega arith, refl)
notify_run_lem (t ∷ ts) completed =
    let (known, turns, requests) = notify_run_lem ts (granted_step t completed).0 in
    let first = step-known t.previous t.next completed t.event in
    let later = (notify_run ts (granted_step t completed).0 (some "granted")).1 in
    let grown = length-known_with (completed_key t) completed in
    let turn = step-turns t.previous t.next completed t.event in
    let request = step-requests t.previous t.next completed t.event in
    let all : add_all (completed_keys ts) (granted_step t completed).0
        ≡ add_all (completed_keys (t ∷ ts)) completed =
      ap (λ set. add_all (completed_keys ts) set) first
      ∙ sym (add_all-with_key (completed_key t) (completed_keys ts) completed) in
    let sizes : length (granted_step t completed).0
        ≡ length completed + count_titled "Turn complete" (listed ((granted_step t completed).1)) =
      ap length first ∙ grown ∙ ap (λ n. length completed + n) (sym turn) in
    (
      known ∙ all,
      ap length (sym all)
          ∙ rw
              (
                turns,
                count_titled-append "Turn complete" (listed ((granted_step t completed).1)) later,
              )
              (omega arith),
      count_titled-append "Approval needed" (listed ((granted_step t completed).1)) later
          ∙ elim (Bool-cases (is_request t)) [
            | inl asks ↦ rw (request, requests) (rw asks (omega arith))
            | inr other ↦ rw (request, requests) (rw other (omega arith))
          ],
    )
