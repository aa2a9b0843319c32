-- ===== src/System/Trail.antt =====
-- The history of the notifications: its records stay as they are, and the newest one of a notification
-- has the status of its row.
use notification_test.Base.{
  ℕ, zero, suc, ◌≤◌, ◌<◌, ◌≡◌, inl, inr, refl, sym, ◌∙◌, ap, true, false, some, arith, ◌==◌, ==_iff,
  if◌then◌else◌, Bool-cases,
}
use notification_test.Models.{Notification, NotificationStatus, NotificationStatusHistory}
use notification_test.Platform.{Env}
use notification_test.World.{Db, World}
use notification_test.System.Changes.{Onward, Onward-trans, Steady}

-- The newest record of the notification has the status.
pub record IsCurrent (E : Env) (j : ℕ) (status : NotificationStatus) (d : Db E) : Type 0 where
  pub entry : NotificationStatusHistory
  pub stored : E.history.get entry.id d.history ≡ some entry
  pub own : entry.notification_id ≡ j
  pub same : entry.status ≡ status
  pub latest :
      (i : ℕ) (h : NotificationStatusHistory)
      → E.history.get i d.history ≡ some h
      → h.notification_id ≡ j
      → h.created_at ≤ entry.created_at

-- The ids of the records were drawn, their times are past, and the status of each notification is on
-- record.
pub record IsTrailed {E : Env} (w : World E) : Type 0 where
  pub drawn :
      (i : ℕ) (h : NotificationStatusHistory)
      → E.history.get i w.db.history ≡ some h
      → (k : ℕ) × (k < w.draws) × (i ≡ E.uuid4 k)
  pub past :
      (i : ℕ) (h : NotificationStatusHistory)
      → E.history.get i w.db.history ≡ some h
      → h.created_at ≤ E.clock w.reads
  pub current :
      (j : ℕ) (n : Notification)
      → E.notifications.get j w.db.notifications ≡ some n
      → IsCurrent E j n.status w.db

-- A step that keeps this, and every record.
pub record Trails {E : Env} (w w' : World E) : Type 0 where
  pub onward : Onward w w'
  pub keeps : IsTrailed w → IsTrailed w'
  pub kept :
      IsTrailed w
      → (i : ℕ) (h : NotificationStatusHistory) → E.history.get i w.db.history ≡ some h
      → E.history.get i w'.db.history ≡ some h

clock_le : (E : Env) (m n : ℕ) → m ≤ n → E.clock m ≤ E.clock n
clock_le E m zero h = let same : m ≡ 0 = omega (arith, h) in rw same (omega arith)
clock_le E m (suc n) h = elim (Bool-cases (m == suc n)) [
  | inl here ↦ let same : m ≡ suc n = (==_iff m (suc n)).0 here in rw same (omega arith)
  | inr away ↦
      let other : m ≤ n = ground (arith, h, away) in
      let before = clock_le E m n other in let next = E.clock_mono n in omega (arith, before, next)
]

module _ {E : Env} where
  Trails-trans : (w w₁ w₂ : World E) → Trails w w₁ → Trails w₁ w₂ → Trails w w₂
  Trails-trans w w₁ w₂ t u = record {
    onward = Onward-trans w w₁ w₂ t.onward u.onward;
    keeps = λ s. u.keeps (t.keeps s);
    kept = λ s i h stored. u.kept (t.keeps s) i h (t.kept s i h stored);
  }

  -- A step that writes no history and keeps every status.
  pub status-Trails :
      (w w' : World E)
      → Onward w w'
      → w'.db.history ≡ w.db.history
      → ((j : ℕ) (n' : Notification)
          → E.notifications.get j w'.db.notifications ≡ some n'
          → (n : Notification) × (E.notifications.get j w.db.notifications ≡ some n)
            × (n'.status ≡ n.status))
      → Trails w w'
  status-Trails w w' on history rows = record {
    onward = on;
    keeps = λ s. record {
      drawn = λ i h stored.
          let (k, below, is) = s.drawn i h (rw history at stored) in
          (k, omega (arith, below, on.0), is);
      past = λ i h stored.
          let before = s.past i h (rw history at stored) in
          let later = clock_le E w.reads w'.reads on.1 in omega (arith, before, later);
      current = λ j n' found.
          let (n, was, same) = rows j n' found in
          let c = s.current j n was in
          record {
            entry = c.entry;
            stored = rw history c.stored;
            own = c.own;
            same = c.same ∙ sym same;
            latest = λ i h stored own. c.latest i h (rw history at stored) own;
          };
    };
    kept = λ s i h stored. rw history stored;
  }

  pub Trails-Steady : Steady (Trails {E = E})
  Trails-Steady = record {
    onward = λ w w' t. t.onward;
    trans = Trails-trans;
    quiet = λ w w' on outbox rows history.
        status-Trails w w' on history (λ j n found. (n, rw rows at found, refl));
  }

module _ {E : Env} (unique : (i j : ℕ) → E.uuid4 i ≡ E.uuid4 j → i ≡ j) where
  -- A step that writes a row and a record of its status.
  pub entry-Trails :
      (w w' : World E) (k r : ℕ) (h : NotificationStatusHistory) (n : Notification)
      → Onward w w'
      → w.draws ≤ k
      → k < w'.draws
      → w.reads ≤ r
      → r ≤ w'.reads
      → h.id ≡ E.uuid4 k
      → h.created_at ≡ E.clock r
      → h.notification_id ≡ n.id
      → h.status ≡ n.status
      → w'.db.history ≡ E.history.put h w.db.history
      → w'.db.notifications ≡ E.notifications.put n w.db.notifications
      → Trails w w'
  entry-Trails w w' k r h n on from below since until id at own is entered written = record {
    onward = on;
    keeps = λ s. record {
      drawn = λ i x stored. elim (Bool-cases (h.id == i)) [
        | inl here ↦ (k, below, sym ((==_iff h.id i).0 here) ∙ id)
        | inr away ↦
            let (m, lt, drawn) = s.drawn i x (old i x away stored) in
            (m, omega (arith, lt, on.0), drawn)
      ];
      past = λ i x stored. elim (Bool-cases (h.id == i)) [
        | inl here ↦
            let same : h ≡ x = new i x here stored in
            rw (← same) (rw at (clock_le E r w'.reads until))
        | inr away ↦
            let before = s.past i x (old i x away stored) in
            let later = clock_le E w.reads w'.reads on.1 in omega (arith, before, later)
      ];
      current = λ j n' found. elim (Bool-cases (n.id == j)) [
        | inl here ↦
            let same : n ≡ n' =
              ground
                (arith, found, written, E.notifications.get-put j n w.db.notifications, here) in
            record {
              entry = h;
              stored = ground (arith, read h.id, ==_iff h.id h.id);
              own = own ∙ (==_iff n.id j).0 here;
              same = is ∙ ap (λ (x : Notification). x.status) same;
              latest = λ i x stored mine. elim (Bool-cases (h.id == i)) [
                | inl it ↦ let one : h ≡ x = new i x it stored in rw (← one) (omega arith)
                | inr other ↦
                    let before = s.past i x (old i x other stored) in
                    let later = clock_le E w.reads r since in rw at (omega (arith, before, later))
              ];
            }
        | inr away ↦
            let was : E.notifications.get j w.db.notifications ≡ some n' =
              ground
                (arith, found, written, E.notifications.get-put j n w.db.notifications, away) in
            let c = s.current j n' was in
            record {
              entry = c.entry;
              stored =
                  ground (arith, c.stored, read c.entry.id, apart s c.entry.id c.entry c.stored);
              own = c.own;
              same = c.same;
              latest = λ i x stored mine. elim (Bool-cases (h.id == i)) [
                | inl it ↦
                    let one : h ≡ x = new i x it stored in
                    let its : n.id ≡ j =
                      sym own
                      ∙ ap (λ (y : NotificationStatusHistory). y.notification_id) one
                      ∙ mine in
                    ground (arith, its, away, ==_iff n.id j)
                | inr other ↦ c.latest i x (old i x other stored) mine
              ];
            }
      ];
    };
    kept = λ s i x stored. ground (arith, stored, read i, apart s i x stored);
  }
    where
      read :
          (i : ℕ)
          → E.history.get i w'.db.history
            ≡ (if h.id == i then some h else E.history.get i w.db.history)
      read i = rw entered (E.history.get-put i h w.db.history)

      old :
          (i : ℕ) (x : NotificationStatusHistory)
          → (h.id == i) ≡ false
          → E.history.get i w'.db.history ≡ some x
          → E.history.get i w.db.history ≡ some x
      old i x away stored = ground (arith, stored, read i, away)

      new :
          (i : ℕ) (x : NotificationStatusHistory)
          → (h.id == i) ≡ true
          → E.history.get i w'.db.history ≡ some x
          → h ≡ x
      new i x here stored = ground (arith, stored, read i, here)

      apart :
          IsTrailed w
          → (i : ℕ) (x : NotificationStatusHistory) → E.history.get i w.db.history ≡ some x
          → (h.id == i) ≡ false
      apart s i x stored = elim (Bool-cases (h.id == i)) [
        | inr away ↦ away
        | inl here ↦
            let (m, lt, drawn) = s.drawn i x stored in
            let one : k ≡ m = unique k m (sym id ∙ (==_iff h.id i).0 here ∙ drawn) in
            absurd (omega (arith, one, lt, from))
      ]
