-- ===== src/Api/Bulk.antt =====
-- app/api/v1/notifications.py: what the route of a bulk request answers.
use notification_test.Base.{
  ℕ, ◌≤◌, ◌≡◌, ◌≢◌, ◌⊎◌, inl, inr, refl, sym, String, true, List, [], ◌∷◌, arith, length, Has,
}
use mathlib.Core.Path.{subst}
use notification_test.Exec.{
  Result, Result-cases, Error, ok, err, idempotency_conflict, idempotency_in_progress,
  integrity_error, multiple_results_found, no_result_found, idempotency_record_exists, key_error,
  value_error, index_error, other, redis_error,
}
use notification_test.Models.{BulkNotificationRequest, BulkNotificationResponse}
use notification_test.Platform.{Env}
use notification_test.Config.{Settings}
use notification_test.World.{World}
use notification_test.Services.BulkRows.{from_keys_after, from_keys}
use notification_test.Services.Notifications.{create_bulk}
use notification_test.Services.Notifications.Recipients.{from_keys_complete}
use notification_test.Services.Notifications.Acceptance.{create_bulk-Accepted}
use notification_test.Services.Notifications.Atomic.{create_bulk_atomic}
use notification_test.Api.{
  Reply, reply, http_exception, is_valid_request, answer_bulk, create_bulk_notifications,
}

length-from_keys_after : (seen xs : List ℕ) → length (from_keys_after seen xs) ≤ length xs
unfolding from_keys_after
length-from_keys_after seen [] = omega arith
length-from_keys_after seen (x ∷ xs) =
    ground (arith, length-from_keys_after seen xs, length-from_keys_after (x ∷ seen) xs)

length-from_keys : (xs : List ℕ) → length (from_keys xs) ≤ length xs
unfolding from_keys
length-from_keys xs = length-from_keys_after [] xs

length-Has : (xs : List ℕ) (a : ℕ) → Has a xs → 1 ≤ length xs
length-Has (x ∷ xs) a h = omega arith
length-Has [] a h = absurd h

some_recipient : (xs : List ℕ) → 1 ≤ length xs → 1 ≤ length (from_keys xs)
some_recipient (x ∷ xs) h =
    length-Has (from_keys (x ∷ xs)) x (from_keys_complete (x ∷ xs) x (inl refl))
some_recipient [] h = absurd (omega (arith, h))

valid_recipients :
    (request : BulkNotificationRequest)
    → is_valid_request request ≡ true
    → (1 ≤ length request.recipient_ids) × (length request.recipient_ids ≤ 10000)
unfolding is_valid_request
valid_recipients request h = (ground arith, ground arith)

module _ {E : Env} (settings : Settings) (request : BulkNotificationRequest) (key : String)
    (w : World E) where
  -- The four ways that the route ends, in the state `w'`.
  pub data Ends (r : Result (Reply BulkNotificationResponse)) (w' : World E) : Type 0 where
    is_accepted :
        (response : BulkNotificationResponse)
        → (create_bulk settings request key w).0 ≡ ok response
        → r ≡ ok (reply 202 response)
        → (response.status ≡ "accepted"
            → (1 ≤ response.notifications_created) × (response.notifications_created ≤ 10000))
        → Ends r w'
    refused :
        (e : Error) (detail : String)
        → (create_bulk settings request key w).0 ≡ err e
        → (e ≡ idempotency_conflict) ⊎ (e ≡ idempotency_in_progress)
        → r ≡ ok (http_exception 409 detail)
        → w'.db ≡ w.db
        → Ends r w'
    failed :
        (e : Error)
        → (create_bulk settings request key w).0 ≡ err e
        → r ≡ err e
        → e ≢ idempotency_conflict
        → e ≢ idempotency_in_progress
        → w'.db ≡ w.db
        → Ends r w'
    redis_failed :
        (create_bulk settings request key w).0 ≡ err redis_error → r ≡ err redis_error → Ends r w'

  answer_error :
      (e : Error) (w' : World E)
      → (create_bulk settings request key w).0 ≡ err e
      → (e ≢ redis_error → w'.db ≡ w.db)
      → Ends (answer_bulk (err e)) w'
  unfolding answer_bulk
  answer_error idempotency_conflict w' came same =
      refused _ _ came (inl refl) refl (same (λ h. ground arith))
  answer_error idempotency_in_progress w' came same =
      refused _ _ came (inr refl) refl (same (λ h. ground arith))
  answer_error redis_error w' came same = redis_failed came refl
  answer_error integrity_error w' came same =
      failed _ came refl (λ h. ground arith) (λ h. ground arith) (same (λ h. ground arith))
  answer_error multiple_results_found w' came same =
      failed _ came refl (λ h. ground arith) (λ h. ground arith) (same (λ h. ground arith))
  answer_error no_result_found w' came same =
      failed _ came refl (λ h. ground arith) (λ h. ground arith) (same (λ h. ground arith))
  answer_error (idempotency_record_exists p) w' came same =
      failed _ came refl (λ h. ground arith) (λ h. ground arith) (same (λ h. ground arith))
  answer_error key_error w' came same =
      failed _ came refl (λ h. ground arith) (λ h. ground arith) (same (λ h. ground arith))
  answer_error value_error w' came same =
      failed _ came refl (λ h. ground arith) (λ h. ground arith) (same (λ h. ground arith))
  answer_error index_error w' came same =
      failed _ came refl (λ h. ground arith) (λ h. ground arith) (same (λ h. ground arith))
  answer_error (other s) w' came same =
      failed _ came refl (λ h. ground arith) (λ h. ground arith) (same (λ h. ground arith))

  accepted_count :
      (response : BulkNotificationResponse)
      → is_valid_request request ≡ true
      → (create_bulk settings request key w).0 ≡ ok response
      → response.status ≡ "accepted"
      → (1 ≤ response.notifications_created) × (response.notifications_created ≤ 10000)
  accepted_count response valid h s =
      let all = create_bulk-Accepted settings request key w response h s in
      let (some_, few) = valid_recipients request valid in
      let more = some_recipient request.recipient_ids some_ in
      let less = length-from_keys request.recipient_ids in rw all.count (more, omega arith)

  -- The route of a valid bulk request answers 202 with the answer of `create_bulk`, or 409 exactly
  -- for a conflict and for a request in progress, or lets another exception through. Unless it
  -- answers 202 or a call of Redis raised, no table changes; if it answers "accepted", from 1 to 10000 notifications were made.
  pub create_bulk_notifications-Ends :
      is_valid_request request ≡ true
      → let r = create_bulk_notifications settings request key w in Ends r.0 r.1
  unfolding create_bulk_notifications
  create_bulk_notifications-Ends valid =
      let after = (create_bulk settings request key w).1 in
      elim (Result-cases (create_bulk settings request key w).0) [
        | inl (response, h) ↦
            subst (λ x. Ends (answer_bulk x) after) (sym h)
              (is_accepted response h refl (accepted_count response valid h))
        | inr (e, h) ↦
            subst (λ x. Ends (answer_bulk x) after) (sym h)
              (answer_error e after h (create_bulk_atomic settings request key w e h))
      ]
