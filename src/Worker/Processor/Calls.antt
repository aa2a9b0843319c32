-- ===== src/Worker/Processor/Calls.antt =====
-- app/worker/processor.py: when `process` calls a provider, and with what.
use notification_test.Base.{ℕ, ◌≡◌, inl, inr, ◌≢◌, String, Option, none, some, arith}
use notification_test.Exec.{Result, Result-cases, ok, err}
use notification_test.Models.{Notification, Payload}
use notification_test.Platform.{Env}
use notification_test.Config.{Settings}
use notification_test.Providers.{ProviderResult}
use notification_test.World.{Node}
use notification_test.Worker.Attempts.{reserve}
use notification_test.Worker.Attempts.Outcomes.{reserve_hands_out}
use notification_test.Worker.ResultHandler.{apply}
use notification_test.Worker.ResultHandler.Session.{apply_loaded_fresh}
use notification_test.Worker.Processor.{
  Send, notification_id, find_provider, send_to_provider, process, policy_of, send_failed,
}

-- What the provider's result is for `apply`: an exception counts as a temporary failure.
abbrev pub outcome : Env → Result ProviderResult → ProviderResult
outcome E (ok result) = result
outcome E (err e) = send_failed E e

module _ {E : Env} {P : Type 0} (custom : String → Option (Send P))
    (build : String → Result (Send P)) (settings : Settings) (payload : Payload) (s : Node E P)
    (id : ℕ) (named : notification_id E payload ≡ ok id) where
  -- If `reserve` hands out a notification whose channel has a provider, `process` calls it once, with
  -- the subscriber, the message and the id of the notification, and leaves the tables as `apply`
  -- does with its result, an exception counting as a temporary failure.
  pub process_sends :
      (n : Notification) (send : Send P)
      → (reserve settings id payload s.world).0 ≡ ok (some n)
      → find_provider custom build n.channel ≡ ok send
      → let sent = send n.subscriber_id n.message (E.uuid_str n.id) s.outside in
        let after = (process custom build settings payload s).1 in
        (after.outside ≡ sent.1)
        × (after.world
            ≡ (apply
                (policy_of settings)
                id
                payload
                (outcome E sent.0)
                (reserve settings id payload s.world).1).1)
  unfolding process send_to_provider
  process_sends n send handed found =
      let sent = send n.subscriber_id n.message (E.uuid_str n.id) s.outside in
      let (_, _, _, stored) = reserve_hands_out settings id payload s.world n handed in
      let same = λ (result : ProviderResult).
        apply_loaded_fresh (policy_of settings) n id payload result
          (reserve settings id payload s.world).1 stored in
      elim (Result-cases sent.0) [
        | inl (result, e) ↦ ground (arith, named, handed, found, e, same result)
        | inr (x, e) ↦ ground (arith, named, handed, found, e, same (send_failed E x))
      ]

  -- If `reserve` hands out nothing, or raises, `process` calls no provider and writes what `reserve`
  -- writes.
  pub process_idle :
      ((n : Notification) → (reserve settings id payload s.world).0 ≢ ok (some n))
      → let after = (process custom build settings payload s).1 in
        (after.outside ≡ s.outside) × (after.world ≡ (reserve settings id payload s.world).1)
  unfolding process
  process_idle idle = elim (Result-cases (reserve settings id payload s.world).0) [
    | inl (none, e) ↦ ground (arith, named, e)
    | inl (some n, e) ↦ absurd (idle n e)
    | inr (x, e) ↦ ground (arith, named, e)
  ]
