-- ===== src/Realtime/Queue/Laws.antt =====
-- About the queue of approvals of frontend/src/realtime.ts under requests and resolutions: its
-- ids, and what stands at each id.
use acp_webui.Common.{
  Option, none, some, List, [], ◌∷◌, String, ℕ, zero, suc, ◌<◌, ◌==◌, ◌≡◌, ◌≢◌, refl, ◌∙◌, Bool,
  true, false, arith, length, head?, ltb, or_else?, ap, if◌then◌else◌,
}
use acp_webui.Common.Host.{Host}
use acp_webui.Common.Keyed.{upsert}
use acp_webui.Common.Keyed.Laws.{HasDistinctKeys, at_key, at_key-upsert, upsert-HasDistinctKeys}
use acp_webui.Common.Keyed.Sorted.{at_key-sort, sort-HasDistinctKeys}
use acp_webui.Types.{PermissionRequest, SessionDetail}
use acp_webui.Realtime.Queue.{
  approval_queue, merge_permission_queue, permission_after, permission_id, queue_or_single,
  sort_permission_queue, stored_queue, with_approval_queue,
}

abbrev pub HasDistinctIds : List PermissionRequest → Type 0
HasDistinctIds = HasDistinctKeys permission_id

-- The request with an id.
abbrev pub at_id : String → List PermissionRequest → Option PermissionRequest
at_id k queue = at_key permission_id k queue

replaced-HasDistinctIds :
    (b : Bool) (q : List PermissionRequest) (active : Option PermissionRequest)
    → HasDistinctIds q
    → HasDistinctIds (
        queue_or_single
          (some (if b then q else []))
          (if b then or_else? active (head? q) else none))
replaced-HasDistinctIds false q active v = tt
replaced-HasDistinctIds true [] none v = tt
replaced-HasDistinctIds true [] (some p) v = (tt, tt)
replaced-HasDistinctIds true (p ∷ ps) active v = v

module _ (h : Host) where
  pub sort-HasDistinctIds :
      (queue : List PermissionRequest)
      → HasDistinctIds queue
      → HasDistinctIds (sort_permission_queue h queue)
  unfolding sort_permission_queue
  sort-HasDistinctIds queue v = sort-HasDistinctKeys (permission_after h) permission_id queue v

  pub at_id-sort :
      (k : String) (queue : List PermissionRequest)
      → HasDistinctIds queue
      → at_id k (sort_permission_queue h queue) ≡ at_id k queue
  unfolding sort_permission_queue
  at_id-sort k queue v = at_key-sort (permission_after h) permission_id k queue v

  pub merge-HasDistinctIds :
      (queue : List PermissionRequest) (p : Option PermissionRequest)
      → HasDistinctIds queue
      → HasDistinctIds (merge_permission_queue h queue p)
  unfolding merge_permission_queue
  merge-HasDistinctIds queue none v = sort-HasDistinctIds queue v
  merge-HasDistinctIds queue (some p) v =
      sort-HasDistinctIds (upsert permission_id p queue)
        (upsert-HasDistinctKeys permission_id p queue v)

  pub at_id-merge :
      (k : String) (queue : List PermissionRequest) (p : PermissionRequest)
      → HasDistinctIds queue
      → at_id k (merge_permission_queue h queue (some p))
        ≡ (if p.id == k then some p else at_id k queue)
  unfolding merge_permission_queue
  at_id-merge k queue p v =
      at_id-sort k (upsert permission_id p queue) (upsert-HasDistinctKeys permission_id p queue v)
      ∙ at_key-upsert permission_id k p queue

  pub approval_queue-HasDistinctIds :
      (d : SessionDetail) → HasDistinctIds (stored_queue d) → HasDistinctIds (approval_queue h d)
  unfolding approval_queue
  approval_queue-HasDistinctIds d v = sort-HasDistinctIds (stored_queue d) v

  pub at_id-approval_queue :
      (k : String) (d : SessionDetail)
      → HasDistinctIds (stored_queue d)
      → at_id k (approval_queue h d) ≡ at_id k (stored_queue d)
  unfolding approval_queue
  at_id-approval_queue k d v = at_id-sort k (stored_queue d) v

listed_unless_empty : (q : List PermissionRequest) → (if ltb 0 (length q) then q else []) ≡ q
listed_unless_empty [] = refl
listed_unless_empty (p ∷ ps) = ground arith

module _ (h : Host) where
  -- What a session stores after its queue was replaced has distinct ids.
  pub with_approval_queue-HasDistinctIds :
      (d : SessionDetail) (queue : List PermissionRequest) (active : Option PermissionRequest)
      (pending queued : Option ℕ) (status : Option String)
      → HasDistinctIds queue
      → HasDistinctIds (stored_queue (with_approval_queue h d queue active pending queued status))
  unfolding with_approval_queue
  with_approval_queue-HasDistinctIds d queue active pending queued status v =
      replaced-HasDistinctIds _ _ active (sort-HasDistinctIds h queue v)

  -- Unless the server counts none, a session whose queue was replaced lists the new queue.
  pub with_approval_queue-listed :
      (d : SessionDetail) (queue : List PermissionRequest) (active : Option PermissionRequest)
      (pending queued : Option ℕ) (status : Option String)
      → pending ≢ some 0
      → (with_approval_queue h d queue active pending queued status).pending_permissions
        ≡ some (sort_permission_queue h queue)
  unfolding with_approval_queue
  with_approval_queue-listed d queue active (some zero) queued status counted =
      absurd (counted refl)
  with_approval_queue-listed d queue active (some (suc n)) queued status counted = ground arith
  with_approval_queue-listed d queue active none queued status counted =
      ap some (listed_unless_empty (sort_permission_queue h queue))

  -- With a queue that is not empty, it shows the active request that the server names.
  pub with_approval_queue-shown :
      (d : SessionDetail) (queue : List PermissionRequest) (active : PermissionRequest)
      (pending queued : Option ℕ) (status : Option String)
      → pending ≢ some 0
      → 0 < length (sort_permission_queue h queue)
      → (with_approval_queue h d queue (some active) pending queued status).pending_permission
        ≡ some active
  unfolding with_approval_queue
  with_approval_queue-shown d queue active (some zero) queued status counted pos =
      absurd (counted refl)
  with_approval_queue-shown d queue active (some (suc n)) queued status counted pos = ground arith
  with_approval_queue-shown d queue active none queued status counted pos = ground arith

  -- With none pending, it lists none, and shows none.
  pub with_approval_queue-none :
      (d : SessionDetail) (queue : List PermissionRequest) (active : Option PermissionRequest)
      (queued : Option ℕ) (status : Option String)
      → (let d' = with_approval_queue h d queue active (some 0) queued status in
          (d'.pending_permissions ≡ some []) × (d'.pending_permission ≡ none))
  unfolding with_approval_queue
  with_approval_queue-none d queue active queued status = ground arith
