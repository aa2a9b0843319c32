-- ===== src/Worker/Processor/Sent.antt =====
-- app/worker/processor.py: what one message makes of a notification for which an attempt is left.
use notification_test.Base.{
  ℕ, ◌<◌, ◌≡◌, refl, sym, ◌∙◌, ap, String, false, Option, some, List, ◌∷◌, arith, some_inj,
}
use mathlib.Core.Path.{subst}
use notification_test.Providers.{ProviderResult}
use notification_test.Exec.{Result, ok}
use notification_test.Models.{Notification, Payload, is_final_status}
use notification_test.Platform.{Env}
use notification_test.Config.{Settings}
use notification_test.World.{Node}
use notification_test.Worker.Attempts.{reserve}
use notification_test.Worker.Attempts.Rows.{active}
use notification_test.Worker.Attempts.Outcomes.{reserve_hands_out, Begun, begun_at}
use notification_test.Worker.ResultHandler.Outcomes.{Outcome, apply-Outcome}
use notification_test.Worker.Processor.{Send, notification_id, find_provider, process, policy_of}
use notification_test.Worker.Processor.Calls.{outcome, process_sends}
use notification_test.Worker.Processor.Reserved.{reserve_begins}

module _ {E : Env} {P : Type 0} (custom : String → Option (Send P))
    (build : String → Result (Send P)) (settings : Settings) (d : ℕ) (ds : List ℕ)
    (delays : settings.retry_backoff_list ≡ d ∷ ds) (payload : Payload) (id : ℕ)
    (named : notification_id E payload ≡ ok id) where
  -- What the processing of a message leaves: the row `n'` that was handed out, and what the result of
  -- the call made of it.
  pub record Attempt (n : Notification) (start : ℕ) (sent : Result ProviderResult × P)
      (after : Node E P) : Type 0 where
    pub begun_row : Notification
    pub row : Notification
    pub began : ℕ
    pub now : ℕ
    pub begun : Begun settings start began n begun_row
    pub result : Outcome settings.max_retries d ds now begun_row row (outcome E sent.0)
    pub stored : E.notifications.get id after.world.db.notifications ≡ some row
    pub outside : after.outside ≡ sent.1

  pub process-Attempt :
      (s : Node E P) (n : Notification) (send : Send P)
      → E.notifications.get id s.world.db.notifications ≡ some n
      → is_final_status n.status ≡ false
      → active n (E.clock s.world.reads) ≡ false
      → n.attempts < settings.max_retries
      → find_provider custom build n.channel ≡ ok send
      → Attempt n
          (E.clock s.world.reads)
          (send n.subscriber_id n.message (E.uuid_str id) s.outside)
          (process custom build settings payload s).1
  process-Attempt s n send found going unlocked more provided =
      let (n', handed) = reserve_begins settings id n payload s.world found going unlocked more in
      let (m, was, begun, stored) = reserve_hands_out settings id payload s.world n' handed in
      let one : m ≡ n = some_inj (sym was ∙ found) in
      let begun' : Begun settings (E.clock s.world.reads) (E.clock (begun_at m s.world.reads)) n
          n' =
        subst
          (λ (x : Notification).
            Begun settings (E.clock s.world.reads) (E.clock (begun_at m s.world.reads)) x n')
          one begun in
      let here : n'.id ≡ id =
        begun'.same.id ∙ E.notifications.get_key id n s.world.db.notifications found in
      let (outside, world) =
        process_sends custom build settings payload s id named n' send handed
          (rw begun'.same.channel provided) in
      let sent = send n'.subscriber_id n'.message (E.uuid_str n'.id) s.outside in
      let call : sent ≡ send n.subscriber_id n.message (E.uuid_str id) s.outside =
        rw (begun'.same.subscriber_id, begun'.same.message, here) refl in
      let (_, (n'', is, now, _)) =
        apply-Outcome (policy_of settings) d ds delays n' payload (outcome E sent.0) id
          (reserve settings id payload s.world).1 stored (rw begun'.status refl)
          (omega (arith, begun'.attempts)) in
      record {
        begun_row = n';
        began = E.clock (begun_at m s.world.reads);
        now = E.clock (reserve settings id payload s.world).1.reads;
        row = n'';
        begun = begun';
        result = rw (← call) is;
        stored = rw world now;
        outside = outside ∙ ap (λ (r : Result ProviderResult × P). r.1) call;
      }
