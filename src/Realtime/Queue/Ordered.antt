-- ===== src/Realtime/Queue/Ordered.antt =====
-- About sortPermissionQueue of frontend/src/realtime.ts: the order of the queue.
use acp_webui.Common.{some, List, String, ◌≡◌, true, false, arith, is_gt, All}
use acp_webui.Common.Host.{Host}
use acp_webui.Common.Host.Laws.{IsDate}
use acp_webui.Common.Sort.Laws.{IsOrder, IsSorted, sort-All, sort-IsSorted, sort_of_IsSorted}
use acp_webui.Common.Keyed.{upsert}
use acp_webui.Common.Keyed.Laws.{upsert-All}
use acp_webui.Types.{PermissionRequest, SessionDetail}
use acp_webui.Realtime.Queue.{
  approval_queue, merge_permission_queue, permission_after, permission_id, sort_permission_queue,
  stored_queue,
}

-- `localeCompare` orders the texts, as its documentation says.
pub record IsCollation (h : Host) : Type 0 where
  pub asym :
      (a b : String) → is_gt (h.locale_compare a b) ≡ true → is_gt (h.locale_compare b a) ≡ false
  pub trans :
      (a b c : String)
      → is_gt (h.locale_compare a b) ≡ false
      → is_gt (h.locale_compare b c) ≡ false
      → is_gt (h.locale_compare a c) ≡ false

abbrev pub HasDate : Host → PermissionRequest → Type 0
HasDate h p = IsDate h p.created_at

module _ (h : Host) (collation : IsCollation h) where
  permission_after-asym :
      (x y : PermissionRequest)
      → HasDate h x
      → HasDate h y
      → permission_after h x y ≡ true
      → permission_after h y x ≡ false
  unfolding permission_after
  permission_after-asym x y (s, p) (t, q) later = ground (arith, collation.asym x.id y.id)

  permission_after_trans :
      (x y z : PermissionRequest)
      → HasDate h x
      → HasDate h y
      → HasDate h z
      → permission_after h x y ≡ false
      → permission_after h y z ≡ false
      → permission_after h x z ≡ false
  unfolding permission_after
  permission_after_trans x y z (s, p) (t, q) (u, r) k l =
      ground (arith, collation.trans x.id y.id z.id)

  permission_after-IsOrder : IsOrder (permission_after h) (HasDate h)
  permission_after-IsOrder = record { asym = permission_after-asym; trans = permission_after_trans }

  -- The queue of approvals is ordered by date and then by id after it is sorted, if its dates can
  -- be read and the comparison of ids is an order.
  pub sort_permission_queue-IsSorted :
      (queue : List PermissionRequest)
      → All (HasDate h) queue
      → IsSorted (permission_after h) (sort_permission_queue h queue)
  unfolding sort_permission_queue
  sort_permission_queue-IsSorted queue v = sort-IsSorted permission_after-IsOrder queue v

  pub sort_permission_queue-twice :
      (queue : List PermissionRequest)
      → All (HasDate h) queue
      → sort_permission_queue h (sort_permission_queue h queue) ≡ sort_permission_queue h queue
  unfolding sort_permission_queue
  sort_permission_queue-twice queue v =
      sort_of_IsSorted (permission_after h) _ (sort-IsSorted permission_after-IsOrder queue v)

  pub sort_permission_queue-HasDate :
      (queue : List PermissionRequest)
      → All (HasDate h) queue
      → All (HasDate h) (sort_permission_queue h queue)
  unfolding sort_permission_queue
  sort_permission_queue-HasDate queue v = sort-All (permission_after h) (HasDate h) queue v

  pub merge_permission_queue-HasDate :
      (queue : List PermissionRequest) (p : PermissionRequest)
      → HasDate h p
      → All (HasDate h) queue
      → All (HasDate h) (merge_permission_queue h queue (some p))
  unfolding merge_permission_queue
  merge_permission_queue-HasDate queue p q v =
      sort_permission_queue-HasDate (upsert permission_id p queue)
        (upsert-All permission_id (HasDate h) p queue q v)

  -- A queue that is stored sorted is read as it is stored.
  pub approval_queue-eq :
      (d : SessionDetail)
      → IsSorted (permission_after h) (stored_queue d)
      → approval_queue h d ≡ stored_queue d
  unfolding approval_queue sort_permission_queue
  approval_queue-eq d v = sort_of_IsSorted (permission_after h) (stored_queue d) v
