-- ===== src/Providers/Mock/Once.antt =====
-- app/providers/mock.py: a provider that fails once for every key.
use notification_test.Base.{
  Bool-cases, inl, inr, some, ℕ, ◌≡◌, refl, String, Bool, false, ◌||◌, List, [], ◌∷◌, arith, str_eq,
  eq_iff,
}
use notification_test.Exec.{Result, ok}
use notification_test.Models.{temporary}
use notification_test.Providers.{ProviderResult}
use notification_test.Providers.Mock.{
  Chance, MockProvider, is_among, new_provider, success, send_by_mode, send,
}

-- A sending: the recipient, the message and the key.
abbrev pub Sending : Type 0
Sending = ℕ × String × String

-- The calls of a worker on one provider, one after the other.
abbrev pub send_all : Chance → List Sending → MockProvider → MockProvider
send_all chance [] p = p
send_all chance ((recipient, message, key) ∷ calls) p =
    send_all chance calls (send chance recipient message key p).1

abbrev pub was_called : String → List Sending → Bool
was_called key [] = false
was_called key ((_, _, k) ∷ calls) = str_eq k key || was_called key calls

-- What a call answers that is to succeed or not.
abbrev pub Answers : Bool → Result ProviderResult → Type 0
Answers succeeds r =
    (result : ProviderResult) × (r ≡ ok result)
    × (result.success ≡ succeeds)
    × (result.delivered ≡ succeeds)
    × (succeeds ≡ false → result.error_type ≡ some temporary)

module _ (chance : Chance) where
  -- One call in that mode: it fails unless its key is noted, and is noted then.
  pub once_lem :
      (recipient : ℕ) (message key : String) (p : MockProvider)
      → p.mode ≡ "temporary_error_once"
      → let r = send chance recipient message key p in
        Answers (is_among key p.temporary_failures) r.0
        × (r.1.mode ≡ "temporary_error_once")
        × ((k : String)
            → is_among k r.1.temporary_failures ≡ (str_eq key k || is_among k p.temporary_failures))
  unfolding send send_by_mode success is_among
  once_lem recipient message key p mode = elim (Bool-cases (is_among key p.temporary_failures)) [
    | inl noted ↦
        rw (mode, send)
          (rw noted (
            (_, refl, refl, refl, λ h. ground arith),
            refl,
            λ k. ground (arith, noted, eq_iff key k),
          ))
    | inr fresh ↦ rw (mode, send) (rw fresh ((_, refl, refl, refl, λ _. refl), refl, λ k. refl))
  ]

  -- The keys that are noted after some calls.
  noted_lem :
      (calls : List Sending) (p : MockProvider)
      → p.mode ≡ "temporary_error_once"
      → ((send_all chance calls p).mode ≡ "temporary_error_once")
        × ((k : String)
            → is_among k (send_all chance calls p).temporary_failures
              ≡ (was_called k calls || is_among k p.temporary_failures))
  noted_lem [] p mode = (mode, λ k. refl)
  noted_lem ((recipient, message, key) ∷ calls) p mode =
      let (_, kept, noted) = once_lem recipient message key p mode in
      let (still, all) = noted_lem calls (send chance recipient message key p).1 kept in
      (still, λ k. ground (arith, all k, noted k))

  -- A provider in the mode "temporary_error_once" fails, with a temporary error, at the first call
  -- with a key, and succeeds at every later one, whatever other calls there were.
  pub send_once_lem :
      (prefix : String) (calls : List Sending) (recipient : ℕ) (message key : String)
      → Answers
          (was_called key calls)
          (send chance recipient message key
            (send_all chance calls (new_provider prefix "temporary_error_once"))).0
  unfolding is_among
  send_once_lem prefix calls recipient message key =
      let start = new_provider prefix "temporary_error_once" in
      let (mode, noted) = noted_lem calls start refl in
      let (answer, _, _) = once_lem recipient message key (send_all chance calls start) mode in
      let same : is_among key (send_all chance calls start).temporary_failures
          ≡ was_called key calls =
        ground (arith, noted key) in
      rw same at answer
