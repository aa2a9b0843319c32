-- ===== src/Messaging/OutboxPublisher/Claims.antt =====
-- Which events a publisher claims, and that no other publisher claims them too.
use notification_test.Base.{
  ℕ, suc, ◌+◌, ◌≤◌, ◌≡◌, ◌≢◌, inl, inr, refl, sym, ap, ◌∙◌, Bool, true, false, some, List, [], ◌∷◌,
  map, arith, ◌==◌, ==_iff, length, Has, Has-take, Distinct, Distinct-take, Sorted, Sorted-take,
  length-take-le,
}
use notification_test.Exec.{ok}
use notification_test.Models.{OutboxEvent}
use notification_test.Platform.{Env}
use notification_test.Config.{Settings, seconds}
use notification_test.World.{World, put_event}
use notification_test.Messaging.OutboxPublisher.{
  ClaimedOutboxEvent, claimable, comes_first, fetch, claimed, claim_all, ticket, claim_pending,
}

abbrev same_id : OutboxEvent → OutboxEvent → Bool
same_id a b = a.id == b.id

comes_first_total : (a b : OutboxEvent) → comes_first a b ≡ false → comes_first b a ≡ true
unfolding comes_first
comes_first_total a b h = ground arith

comes_first_trans :
    (a b c : OutboxEvent) → comes_first a b ≡ true → comes_first b c ≡ true → comes_first a c ≡ true
unfolding comes_first
comes_first_trans a b c h k = ground arith

module _ {E : Env} where
  open E.outbox use {get, put, get-put}

  -- An event that is not in the list keeps its row.
  claim_all_others :
      (at : ℕ) (es : List OutboxEvent) (w : World E) (j : ℕ)
      → ((e : OutboxEvent) → Has e es → (e.id == j) ≡ false)
      → get j (claim_all at es w).1.db.outbox ≡ get j w.db.outbox
  unfolding claim_all
  claim_all_others at [] w j h = refl
  claim_all_others at (x ∷ es) w j h =
      claim_all_others at es (put_event (claimed at x) w) j (λ e m. h e (inr m))
      ∙ rw (get-put j (claimed at x) w.db.outbox, h x (inl refl))

  claim_all_rows :
      (at : ℕ) (es : List OutboxEvent) (w : World E) (e : OutboxEvent)
      → Distinct same_id es
      → Has e es
      → get e.id (claim_all at es w).1.db.outbox ≡ some (claimed at e)
  unfolding claim_all
  claim_all_rows at (x ∷ es) w e d (inl here) = rw (← here) (
      claim_all_others at es (put_event (claimed at x) w) x.id
        (λ y m. let apart = d.0 y m in ground arith)
      ∙ rw (get-put x.id (claimed at x) w.db.outbox, (==_iff x.id x.id).1 refl))
  claim_all_rows at (x ∷ es) w e d (inr later) =
      claim_all_rows at es (put_event (claimed at x) w) e d.1 later
  claim_all_rows at [] w e d m = absurd m

  claim_all_returns : (at : ℕ) (es : List OutboxEvent) (w : World E) → (claim_all at es w).0 ≡ ok tt
  unfolding claim_all
  claim_all_returns at [] w = refl
  claim_all_returns at (x ∷ es) w = claim_all_returns at es (put_event (claimed at x) w)

  module _ (settings : Settings) (held : OutboxEvent → Bool) (w : World E) where
    -- The events that `claim_pending` finds, and when it claims them.
    abbrev pub found : List OutboxEvent
    found = fetch E settings held (E.clock w.reads) (E.clock (suc w.reads)) w.db.outbox

    abbrev pub claim_time : ℕ
    claim_time = E.clock (suc (suc w.reads))

    found-claimable :
        (e : OutboxEvent)
        → Has e found
        → (get e.id w.db.outbox ≡ some e)
          × (claimable
                (E.clock w.reads)
                (E.clock (suc w.reads))
                (seconds settings.outbox_claim_timeout_seconds)
                e
              ≡ true)
          × (held e ≡ false)
    unfolding fetch
    found-claimable e m =
        let (met, stored) =
          E.outbox.select_sound _ w.db.outbox e
            (E.outbox.order_by_sound comes_first _ e (Has-take settings.outbox_batch_size _ e m)) in
        (stored, ground arith, ground arith)

    found-Distinct : Distinct same_id found
    unfolding fetch
    found-Distinct =
        Distinct-take same_id settings.outbox_batch_size _
          (E.outbox.order_by_distinct comes_first _ (E.outbox.select_distinct _ w.db.outbox))

    found-Sorted : Sorted comes_first found
    unfolding fetch
    found-Sorted =
        Sorted-take comes_first settings.outbox_batch_size _
          (E.outbox.order_by_sorted comes_first _ comes_first_total comes_first_trans)

    found_short : length found ≤ settings.outbox_batch_size
    unfolding fetch
    found_short = length-take-le settings.outbox_batch_size _

    pub claim_pending_lem :
        ((claim_pending settings held w).0 ≡ ok (map ticket found))
        × ((claim_pending settings held w).1.db.outbox
            ≡ (claim_all claim_time found
                (record w { reads = suc (suc (suc w.reads)) })).1.db.outbox)
    unfolding claim_pending
    claim_pending_lem =
        let after : World E = record w { reads = suc (suc (suc w.reads)) } in
        let returned = claim_all_returns claim_time found after in (ground arith, ground arith)

-- An event that was claimed: it was waiting and due, or held by a publisher whose claim had run out,
-- and its row is now under the new claim with one attempt more.
pub record Claim {E : Env} (settings : Settings) (held : OutboxEvent → Bool) (w w' : World E)
    (t : ClaimedOutboxEvent) : Type 0 where
  pub event : OutboxEvent
  pub is : t ≡ ticket event
  pub before : E.outbox.get event.id w.db.outbox ≡ some event
  pub could :
      claimable
        (E.clock w.reads)
        (E.clock (suc w.reads))
        (seconds settings.outbox_claim_timeout_seconds)
        event
      ≡ true
  pub free : held event ≡ false
  pub after :
      E.outbox.get event.id w'.db.outbox ≡ some (claimed (E.clock (suc (suc w.reads))) event)

Has-map :
    {A B : Type 0} (f : A → B) (xs : List A) (b : B)
    → Has b (map f xs)
    → (a : A) × Has a xs × (f a ≡ b)
Has-map f [] b h = absurd h
Has-map f (x ∷ xs) b (inl e) = (x, inl refl, e)
Has-map f (x ∷ xs) b (inr m) = let (a, here, e) = Has-map f xs b m in (a, inr here, e)

module _ {E : Env} (settings : Settings) (held : OutboxEvent → Bool) (w : World E) where
  -- `claim_pending` always returns: at most a batch of events, those of high priority first and the
  -- older ones first among events of one priority.
  pub claim_pending_returns :
      ((claim_pending settings held w).0 ≡ ok (map ticket (found settings held w)))
      × (length (found settings held w) ≤ settings.outbox_batch_size)
      × Sorted comes_first (found settings held w)
  claim_pending_returns = (
    (claim_pending_lem settings held w).0,
    found_short settings held w,
    found-Sorted settings held w,
  )

  -- Every event that `claim_pending` returns was claimable and held by no other transaction, and is
  -- now claimed.
  pub claim_pending-Claim :
      (tickets : List ClaimedOutboxEvent) (t : ClaimedOutboxEvent)
      → (claim_pending settings held w).0 ≡ ok tickets
      → Has t tickets
      → Claim settings held w (claim_pending settings held w).1 t
  claim_pending-Claim tickets t e m =
      let (returned, same) = claim_pending_lem settings held w in
      let all : tickets ≡ map ticket (found settings held w) = ground arith in
      let (event, here, is) = Has-map ticket (found settings held w) t (rw all at m) in
      let (stored, could, free) = found-claimable settings held w event here in
      record {
        event = event;
        is = sym is;
        before = stored;
        could = could;
        free = free;
        after = rw same (
            claim_all_rows {E = E} (claim_time settings held w) (found settings held w)
              (record w { reads = suc (suc (suc w.reads)) }) event (found-Distinct settings held w)
              here);
      }

  -- An event that is not claimed keeps its row.
  pub claim_pending_others :
      (j : ℕ)
      → ((e : OutboxEvent) → Has e (found settings held w) → (e.id == j) ≡ false)
      → E.outbox.get j (claim_pending settings held w).1.db.outbox ≡ E.outbox.get j w.db.outbox
  claim_pending_others j apart =
      let (_, same) = claim_pending_lem settings held w in
      rw same (
        claim_all_others {E = E} (claim_time settings held w) (found settings held w)
          (record w { reads = suc (suc (suc w.reads)) }) j apart)

-- A fresh claim is not claimable.
claimed_not_claimable :
    (now later timeout at : ℕ) (e e' : OutboxEvent)
    → e' ≡ claimed at e
    → claimable now later timeout e' ≡ true
    → later ≤ at + timeout
    → ⊥
unfolding claimable
claimed_not_claimable now later timeout at e e' is could soon =
    let stale : claimable now later timeout (claimed at e) ≡ true = rw is at could in ground arith

-- Two publishers do not claim one event: as long as the rows stay as the first claim left them and
-- its timeout has not run out, no event that it returned is returned by a later claim, whatever
-- locks others hold then.
pub claim_pending_exclusive :
    {E : Env} (settings : Settings) (held held' : OutboxEvent → Bool) (w w' : World E)
    (tickets tickets' : List ClaimedOutboxEvent) (t t' : ClaimedOutboxEvent)
    → (claim_pending settings held w).0 ≡ ok tickets
    → Has t tickets
    → w'.db.outbox ≡ (claim_pending settings held w).1.db.outbox
    → E.clock (suc w'.reads)
      ≤ E.clock (suc (suc w.reads)) + seconds settings.outbox_claim_timeout_seconds
    → (claim_pending settings held' w').0 ≡ ok tickets'
    → Has t' tickets'
    → t'.id ≢ t.id
claim_pending_exclusive {E} settings held held' w w' tickets tickets' t t' e m kept soon e' m'
      same =
    let first = claim_pending-Claim settings held w tickets t e m in
    let second = claim_pending-Claim settings held' w' tickets' t' e' m' in
    let one : second.event.id ≡ first.event.id =
      sym (ap (λ (x : ClaimedOutboxEvent). x.id) second.is)
      ∙ same
      ∙ ap (λ (x : ClaimedOutboxEvent). x.id) first.is in
    let stored : E.outbox.get first.event.id w'.db.outbox
        ≡ some (claimed (E.clock (suc (suc w.reads))) first.event) =
      rw kept first.after in
    let again : E.outbox.get first.event.id w'.db.outbox ≡ some second.event =
      rw (← one) second.before in
    let row : second.event ≡ claimed (E.clock (suc (suc w.reads))) first.event = cc in
    claimed_not_claimable _ _ _ _ first.event second.event row second.could soon
