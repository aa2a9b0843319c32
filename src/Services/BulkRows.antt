-- ===== src/Services/BulkRows.antt =====
-- app/services/notification_service.py: the rows, the texts and the constraints that `create_bulk` uses.
use Prim.Native.String.{◌++◌ as ◌+text◌}
use notification_test.Base.{
  ℕ, String, Bool, true, false, ◌&&◌, ◌||◌, Option, none, some, List, [], ◌∷◌, ◌==◌, str_eq,
}
use notification_test.Exec.{Result, ok, err, value_error}
use notification_test.Models.{
  NotificationBatch, Notification, queued, Json, text, number, Payload, BulkNotificationRequest,
  channel_value, type_value,
}
use notification_test.Platform.{Env}

-- `list(dict.fromkeys(ids))`: each number once, in the order of its first place.
abbrev pub contains : ℕ → List ℕ → Bool
contains a [] = false
contains a (x ∷ xs) = x == a || contains a xs

unfoldable pub from_keys_after : List ℕ → List ℕ → List ℕ
from_keys_after seen [] = []
from_keys_after seen (x ∷ xs) = elim (contains x seen) [
  | true ↦ from_keys_after seen xs
  | false ↦ x ∷ from_keys_after (x ∷ seen) xs
]

unfoldable pub from_keys : List ℕ → List ℕ
unfolding from_keys_after
from_keys xs = from_keys_after [] xs

abbrev pub same_text? : Option String → Option String → Bool
same_text? (some a) (some b) = str_eq a b
same_text? _ _ = false

-- The UNIQUE constraint of a batch, and its primary key.
abbrev pub batch_conflict : NotificationBatch → NotificationBatch → Bool
batch_conflict b x = x.id == b.id || same_text? x.idempotency_key b.idempotency_key

-- `uq_notification_per_batch_subscriber`, and the primary key.
abbrev pub notification_conflict : Notification → Notification → Bool
notification_conflict n x =
    x.id == n.id || (x.batch_id == n.batch_id && x.subscriber_id == n.subscriber_id)

abbrev pub new_batch :
    BulkNotificationRequest → (key hash : String) (id now : ℕ) → NotificationBatch
new_batch request key hash id now = record {
  id = id;
  channel = channel_value request.channel;
  type = type_value request.type;
  message = request.message;
  idempotency_key = some key;
  request_hash = some hash;
  created_at = now;
  updated_at = now;
}

-- The row of a new notification, with the defaults of the model.
abbrev pub queued_row : BulkNotificationRequest → (batch_id recipient_id id now : ℕ) → Notification
queued_row request batch_id recipient_id id now = record {
  id = id;
  batch_id = batch_id;
  subscriber_id = recipient_id;
  channel = channel_value request.channel;
  type = type_value request.type;
  message = request.message;
  status = queued;
  attempts = 0;
  provider_message_id = none;
  last_error = none;
  processing_lock_until = none;
  created_at = now;
  updated_at = now;
}

-- `BulkNotificationResponse(**payload)`: a field that is missing or of another kind is refused.
abbrev pub uuid_field : (E : Env) → Option Json → Result ℕ
uuid_field E (some (text s)) = elim (E.uuid_of s) [ some u ↦ ok u | none ↦ err value_error ]
uuid_field E _ = err value_error

abbrev pub text_field : Option Json → Result String
text_field (some (text s)) = ok s
text_field _ = err value_error

abbrev pub number_field : Option Json → Result ℕ
number_field (some (number n)) = ok n
number_field _ = err value_error

abbrev pub response_payload : Env → ℕ → ℕ → Payload
response_payload E batch_id created =
    ("batch_id", text (E.uuid_str batch_id))
    ∷ ("status", text "accepted")
    ∷ ("notifications_created", number created)
    ∷ []

-- f"idem:{idempotency_key}:lock"
abbrev pub lock_key_of : String → String
lock_key_of idempotency_key = "idem:" +text idempotency_key +text ":lock"

-- app/services/hashing.py, of the dumped request
abbrev pub hash_of : Env → BulkNotificationRequest → String
hash_of E request = E.sha256_hexdigest (E.canonical_dumps request)
