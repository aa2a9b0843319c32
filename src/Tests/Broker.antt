-- ===== src/Tests/Broker.antt =====
-- A broker as the list of the payloads that it holds: an instance of the interface, for tests.
use notification_test.Base.{
  ◌≡◌, ◌≢◌, refl, Bool, true, false, not, ◌&&◌, Option, none, some, List, [], ◌∷◌, arith, Has, inl,
  inr, ◌==◌, ==_iff, str_eq, eq_iff, ap,
}
use notification_test.Exec.{ok}
use notification_test.Models.{Json, null, text, number, Payload}
use notification_test.Platform.ListTable.{keep, keep_complete}
use notification_test.Messaging.Topology.{Names}
use notification_test.Messaging.Publisher.{Broker}
use notification_test.Worker.Loop.{Consumer, object}
use notification_test.System.Rabbit.{Rabbit}

abbrev same_json : Json → Json → Bool
same_json null null = true
same_json (text a) (text b) = str_eq a b
same_json (number a) (number b) = a == b
same_json _ _ = false

same_json_lem : (a b : Json) → same_json a b ≡ true → a ≡ b
same_json_lem null null h = refl
same_json_lem (text a) (text b) h = ap text ((eq_iff a b).0 h)
same_json_lem (number a) (number b) h = ap number ((==_iff a b).0 h)
same_json_lem null (text b) h = ground arith
same_json_lem null (number b) h = ground arith
same_json_lem (text a) null h = ground arith
same_json_lem (text a) (number b) h = ground arith
same_json_lem (number a) null h = ground arith
same_json_lem (number a) (text b) h = ground arith

abbrev same_payload : Payload → Payload → Bool
same_payload [] [] = true
same_payload ((k, v) ∷ p) ((j, u) ∷ q) =
    let rest = same_payload p q in str_eq k j && same_json v u && rest
same_payload _ _ = false

same_payload_lem : (p q : Payload) → same_payload p q ≡ true → p ≡ q
same_payload_lem [] [] h = refl
same_payload_lem ((k, v) ∷ p) ((j, u) ∷ q) h =
    ground (arith, eq_iff k j, same_json_lem v u, same_payload_lem p q)
same_payload_lem [] (_ ∷ _) h = ground arith
same_payload_lem (_ ∷ _) [] h = ground arith

abbrev first : List Payload → Option Payload
first [] = none
first (p ∷ ps) = some p

abbrev pub queue : Broker (List Payload)
queue m held = (ok tt, m.body ∷ held)

abbrev pub consumer : Consumer (List Payload) Payload
consumer = record {
  get = λ name held. (ok (first held), held);
  ack = λ m held. (ok tt, keep (λ p. not (same_payload m p)) held);
  reject = λ requeue m held. (ok tt, held);
}

pub ack_lem :
    (m p : Payload) (held : List Payload)
    → object m ≢ object p
    → Has p held
    → Has p (consumer.ack m held).1
ack_lem m p held apart here =
    keep_complete (λ q. not (same_payload m q)) held p here (ground (arith, other))
  where
    other : same_payload m p ≡ true → ⊥
    other h = apart (ap object (same_payload_lem m p h))

abbrev pub list_broker : (names : Names) → Rabbit (List Payload) Payload names
list_broker names = record {
  publish = queue;
  consumer = consumer;
  loads = object;
  Holds = λ p held. Has p held;
  publish_holds = λ m key q held text bound ran. inl refl;
  publish_keeps = λ m p held here. inr here;
  get_keeps = λ q p held here. here;
  reject_keeps = λ requeue m p held here. here;
  ack_keeps = λ m p held apart here. ack_lem m p held apart here;
}
