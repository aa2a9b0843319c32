-- ===== src/System/Recorded.antt =====
-- The history in the whole service.
use notification_test.Base.{refl, ℕ, ◌≡◌, some, arith}
use notification_test.Models.{Notification}
use notification_test.Platform.{Env}
use notification_test.Config.{Settings}
use notification_test.Messaging.Topology.{Names}
use notification_test.System.Tracking.{Tracked, steps-Tracked}
use notification_test.System.Steps.{Service, IsFresh, Steps}
use notification_test.Worker.Processor.{policy_of}
use notification_test.System.Keys.{cleanup_once-Steady}
use notification_test.System.Requests.{create_bulk-Steady}
use notification_test.System.Rabbit.{Rabbit}
use notification_test.System.Trail.{IsCurrent, IsTrailed, Trails, status-Trails, Trails-Steady}
use notification_test.System.Records.{reserve-Trails, apply-Trails, add_recipient-Trails}
use notification_test.System.Changes.{stays, unchanged-Steady}
use notification_test.Models.{NotificationStatusHistory}

Trails-Tracked :
    {E : Env} (unique : (i j : ℕ) → E.uuid4 i ≡ E.uuid4 j → i ≡ j) (settings : Settings)
    → Tracked settings (Trails {E = E})
Trails-Tracked unique settings = record {
  stay = λ w. unchanged-Steady Trails-Steady w w (stays w) refl;
  trans = Trails-Steady.trans;
  creates = λ request key w.
      create_bulk-Steady Trails-Steady request (add_recipient-Trails unique request) settings key w;
  cleans = λ w. cleanup_once-Steady Trails-Steady w;
  marks = λ Sent w w' m.
      let draws = m.draws in
      status-Trails w w' (omega (arith, draws), m.reads) m.history
        (λ j n found. (n, rw m.notifications at found, refl));
  reserves = reserve-Trails unique settings;
  applies = apply-Trails unique (policy_of settings);
}

fresh-IsTrailed : {E : Env} {B : Type 0} (s : Service E B) → IsFresh s → IsTrailed s.world
fresh-IsTrailed s fresh = record {
  drawn = λ i h stored. ground (arith, stored, fresh.history i);
  past = λ i h stored. ground (arith, stored, fresh.history i);
  current = λ j n found. ground (arith, found, fresh.notifications j);
}

-- In whatever order the requests, the cleaner, the publishers and the workers take their steps from an
-- empty database, and whatever of these fails, the newest record in the history of each notification
-- has the status of its row, and no record of the history is ever changed or lost. The UUIDs have to
-- be distinct.
pub steps-IsCurrent :
    {E : Env} {B M : Type 0} {names : Names} (rabbit : Rabbit B M names) (settings : Settings)
    → ((i j : ℕ) → E.uuid4 i ≡ E.uuid4 j → i ≡ j)
    → (s s' s'' : Service E B) → IsFresh s
    → Steps rabbit settings s s'
    → Steps rabbit settings s' s''
    → ((n : Notification)
        → E.notifications.get n.id s''.world.db.notifications ≡ some n
        → IsCurrent E n.id n.status s''.world.db)
      × ((i : ℕ) (h : NotificationStatusHistory)
          → E.history.get i s'.world.db.history ≡ some h
          → E.history.get i s''.world.db.history ≡ some h)
steps-IsCurrent rabbit settings unique s s' s'' fresh first then =
    let t = steps-Tracked rabbit settings (Trails-Tracked unique settings) s s' first in
    let u = steps-Tracked rabbit settings (Trails-Tracked unique settings) s' s'' then in
    let before = t.keeps (fresh-IsTrailed s fresh) in
    (λ n found. (u.keeps before).current n.id n found, λ i h stored. u.kept before i h stored)
