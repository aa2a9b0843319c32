-- ===== src/Tests/Service.antt =====
-- The theorems on the whole service, on a run of it: a request, the claim of its events, and the
-- publication of one of them.
use notification_test.Base.{
  ◌≤◌, ℕ, ◌+◌, ◌≡◌, ◌⊎◌, inl, refl, true, some, List, [], ◌∷◌, arith, map, Has,
}
use notification_test.Models.{NotificationStatusHistory, Notification, Payload, is_final_status}
use notification_test.Messaging.OutboxPublisher.{
  ClaimedOutboxEvent, ticket, claim_pending, claim_all, claimable, fetch, rank, comes_first,
  publish_one, mark_published,
}
use notification_test.Messaging.OutboxPublisher.Claims.{found, claim_pending_lem}
use notification_test.Messaging.Publisher.{publish, publish_notification, publish_outbox_event}
use notification_test.Services.Idempotency.{reserve_or_get}
use notification_test.Services.OutboxService.{
  notification_payload, routing_key_for_notification_type,
}
use notification_test.Services.BulkRows.{from_keys, queued_row}
use notification_test.Services.Notifications.{
  create_bulk, create_locked, create_block, create_batch, fill_batch, insert_batch,
  insert_notification, add_recipients, add_recipient, add_created_event, response_of,
  already_exists, release_lock, acquire_lock, get_lock, delete_lock,
}
use notification_test.System.Steps.{
  Step, IsFresh, Service, Steps, start, after, requested, claimed, published, publishing,
}
use notification_test.System.Carried.{Carried}
use notification_test.System.Trail.{IsCurrent}
use notification_test.System.Single.{IsSingle, steps-IsSingle}
use notification_test.System.Lives.{steps-Life}
use notification_test.Worker.RowSteps.{Keeping}
use notification_test.System.Recorded.{steps-IsCurrent}
use notification_test.System.Lossless.{steps-Carried}
use notification_test.Tests.Sample.{sample, settings, empty}
use notification_test.Tests.Broker.{list_broker}
use notification_test.Tests.Outbox.{names, Apart-names, nobody}
use notification_test.Tests.Requests.{request}

abbrev idle : Service sample (List Payload)
idle = record { world = empty; broker = []; claims = []; handed = [] }

idle-IsFresh : IsFresh idle
idle-IsFresh = record {
  notifications = λ j. refl;
  outbox = λ j. refl;
  history = λ i. refl;
  claims = refl;
  handed = refl;
}

abbrev asked : Service sample (List Payload)
asked = record idle { world = (create_bulk settings request "key" empty).1 }

-- The events of the two recipients, as one publisher claims them.
abbrev tickets : List ClaimedOutboxEvent
tickets = map ticket (found settings nobody asked.world)

abbrev first_of : List ClaimedOutboxEvent → ClaimedOutboxEvent
first_of [] = record { id = 0; event_type = ""; payload = [] }
first_of (t ∷ ts) = t

there_lem : Has (first_of tickets) tickets
unfolding create_bulk create_locked create_block create_batch fill_batch insert_batch
    insert_notification add_recipients add_recipient add_created_event response_of already_exists
    reserve_or_get acquire_lock release_lock get_lock delete_lock from_keys claimable fetch rank
    comes_first notification_payload routing_key_for_notification_type
there_lem = inl refl

abbrev taken : Service sample (List Payload)
taken = record asked {
  world = (claim_pending settings nobody asked.world).1;
  claims = tickets ∷ [];
}

abbrev sent : Service sample (List Payload)
sent = record taken {
  world = (publishing (list_broker names) settings (first_of tickets) taken).world;
  broker = (publishing (list_broker names) settings (first_of tickets) taken).outside;
}

first_steps : Steps (list_broker names) settings idle taken
first_steps =
    after (after start (requested request "key"))
      (claimed nobody tickets (claim_pending_lem settings nobody asked.world).0)

next_step : Step (list_broker names) settings taken sent
next_step = published tickets (first_of tickets) (inl refl) there_lem

distinct : (i j : ℕ) → i + 100 ≡ j + 100 → i ≡ j
distinct i j e = omega (arith, e)

-- The row of the first recipient.
abbrev row : Notification
row = queued_row request 101 5 102 3000

row_lem : sample.notifications.get 102 sent.world.db.notifications ≡ some row
unfolding create_bulk create_locked create_block create_batch fill_batch insert_batch
    insert_notification add_recipients add_recipient add_created_event response_of already_exists
    reserve_or_get acquire_lock release_lock get_lock delete_lock from_keys claimable fetch rank
    comes_first claim_pending claim_all publish_one mark_published publish_outbox_event
    publish_notification publish notification_payload routing_key_for_notification_type
row_lem = refl

steps-Carried_example :
    (is_final_status row.status ≡ true) ⊎ Carried (list_broker names) row.id sent.world sent.broker
steps-Carried_example =
    steps-Carried (list_broker names) Apart-names distinct settings 5 (30 ∷ []) refl idle sent
      idle-IsFresh (after first_steps next_step) row row_lem

steps-IsCurrent_example :
    ((n : Notification)
      → sample.notifications.get n.id sent.world.db.notifications ≡ some n
      → IsCurrent sample n.id n.status sent.world.db)
    × ((i : ℕ) (h : NotificationStatusHistory)
        → sample.history.get i taken.world.db.history ≡ some h
        → sample.history.get i sent.world.db.history ≡ some h)
steps-IsCurrent_example =
    steps-IsCurrent (list_broker names) settings distinct idle taken sent idle-IsFresh first_steps
      (after start next_step)

steps-Life_example :
    (row.attempts ≤ 3)
    × ((n' : Notification) × (sample.notifications.get 102 sent.world.db.notifications ≡ some n')
        × Keeping row n'
        × (n'.attempts ≤ 3))
steps-Life_example =
    steps-Life (list_broker names) settings idle sent sent idle-IsFresh
      (after first_steps next_step) start row row_lem

steps-IsSingle_example : IsSingle sample sent.world.db.notifications
steps-IsSingle_example =
    steps-IsSingle (list_broker names) settings idle sent idle-IsFresh (after first_steps next_step)
