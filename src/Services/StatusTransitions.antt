-- ===== src/Services/StatusTransitions.antt =====
-- app/services/status_transitions.py
use notification_test.Base.{Bool, true, false}
use notification_test.Models.{NotificationStatus, queued, sent, delivered, dropped}

-- Membership of the pair in `ALLOWED_TRANSITIONS`.
abbrev pub can_transition : NotificationStatus → NotificationStatus → Bool
can_transition queued sent = true
can_transition sent delivered = true
can_transition queued dropped = true
can_transition sent dropped = true
can_transition delivered delivered = true
can_transition dropped dropped = true
can_transition _ _ = false
