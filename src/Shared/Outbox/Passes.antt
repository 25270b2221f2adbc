-- ===== src/Shared/Outbox/Passes.antt =====
-- One pass of _poll_and_publish of shared/outbox.py, and the rows that arrive before it.
use food_flow.Prelude.{
  ℕ, ◌+◌, ◌≤◌, ◌≡◌, refl, sym, ap, subst, ◌∙◌, true, false, ◌||◌, ◌==◌, none, List, [], ◌∷◌, ◌++◌,
  map, length, arith, inl, inr, Bool-cases, if◌then◌else◌,
}
use food_flow.Shared.Uuid.{Uuid}
use food_flow.Shared.Tables.{OutboxRow, has_row}
use food_flow.Shared.Outbox.{
  Sent, sent_of, World, is_pending, Fate, send_fails, commit_fails, goes_well, publish_row, is_well,
  arrive, arrive_all,
}
use food_flow.Shared.Outbox.Relay.{
  IsRow, HasUniqueIds, AllSent, pending, pending-mark, AllSent-mark, AllSent-append,
  mark-HasUniqueIds, sent_of-mark,
}

pub record IsValid (w : World) : Type 0 where
  pub unique : HasUniqueIds w.outbox
  pub sent : AllSent w.outbox w.broker

pub publish_row-IsValid :
    (f : Fate) (r : OutboxRow) (w : World)
    → IsRow r w.outbox
    → IsValid w
    → IsValid (publish_row f r w)
unfolding publish_row
publish_row-IsValid send_fails r w m v = v
publish_row-IsValid commit_fails r w m v = record {
  unique = v.unique;
  sent = AllSent-append w.outbox w.broker (sent_of r) v.sent;
}
publish_row-IsValid (goes_well now) r w m v = record {
  unique = mark-HasUniqueIds now r.id w.outbox v.unique;
  sent = AllSent-mark now r w.outbox w.broker m v.unique v.sent;
}

pub publish_row-pending :
    (f : Fate) (r : OutboxRow) (w : World)
    → IsRow r w.outbox
    → is_pending r ≡ true
    → IsValid w
    → is_well f ≡ true
    → pending (publish_row f r w).outbox + 1 ≡ pending w.outbox
unfolding publish_row
publish_row-pending send_fails r w m p v h = cc
publish_row-pending commit_fails r w m p v h = cc
publish_row-pending (goes_well now) r w m p v h = pending-mark now r w.outbox m p v.unique

pub publish_row-failed :
    (f : Fate) (r : OutboxRow) (w : World)
    → is_well f ≡ false
    → (publish_row f r w).outbox ≡ w.outbox
unfolding publish_row
publish_row-failed send_fails r w h = refl
publish_row-failed commit_fails r w h = refl
publish_row-failed (goes_well now) r w h = cc

pub publish_row-records :
    (f : Fate) (r : OutboxRow) (w : World)
    → map sent_of (publish_row f r w).outbox ≡ map sent_of w.outbox
unfolding publish_row
publish_row-records send_fails r w = refl
publish_row-records commit_fails r w = refl
publish_row-records (goes_well now) r w = sent_of-mark now r.id w.outbox

has_row-append :
    (u : Uuid) (rows : List OutboxRow) (r : OutboxRow)
    → has_row u (rows ++ r ∷ []) ≡ (has_row u rows || r.id == u)
unfolding has_row
has_row-append u [] r = ground arith
has_row-append u (x ∷ rows) r = ground (arith, has_row-append u rows r)

append-HasUniqueIds :
    (r : OutboxRow) (rows : List OutboxRow)
    → has_row r.id rows ≡ false
    → HasUniqueIds rows
    → HasUniqueIds (rows ++ r ∷ [])
unfolding has_row
append-HasUniqueIds r [] h u = (h, tt)
append-HasUniqueIds r (x ∷ rows) h (fresh, u) =
    (ground (arith, has_row-append x.id rows r), append-HasUniqueIds r rows (ground arith) u)

append-AllSent :
    (r : OutboxRow) (rows : List OutboxRow) (b : List Sent)
    → is_pending r ≡ true
    → AllSent rows b
    → AllSent (rows ++ r ∷ []) b
append-AllSent r [] b p h = (λ e. absurd (ground arith), tt)
append-AllSent r (x ∷ rows) b p (s, h) = (s, append-AllSent r rows b p h)

pub arrive-IsValid : (r : OutboxRow) (w : World) → IsValid w → IsValid (arrive r w)
unfolding arrive
arrive-IsValid r w v = elim (Bool-cases (has_row r.id w.outbox)) [
  | inl clash ↦ rw clash v
  | inr free ↦
      let row : OutboxRow = record r { published_at = none } in
      rw free (record {
        unique = append-HasUniqueIds row w.outbox free v.unique;
        sent = append-AllSent row w.outbox w.broker refl v.sent;
      })
]

pub arrive_all-IsValid : (rs : List OutboxRow) (w : World) → IsValid w → IsValid (arrive_all rs w)
unfolding arrive_all
arrive_all-IsValid [] w v = v
arrive_all-IsValid (r ∷ rs) w v = arrive_all-IsValid rs (arrive r w) (arrive-IsValid r w v)

pending-append :
    (r : OutboxRow) (rows : List OutboxRow)
    → is_pending r ≡ true
    → pending (rows ++ r ∷ []) ≡ pending rows + 1
unfolding pending
pending-append r [] waits = ground arith
pending-append r (x ∷ rows) waits = omega (arith, pending-append r rows waits)

sent_of-append :
    (r : OutboxRow) (rows : List OutboxRow)
    → map sent_of (rows ++ r ∷ []) ≡ map sent_of rows ++ sent_of r ∷ []
sent_of-append r [] = refl
sent_of-append r (x ∷ rows) = ap (λ (l : List Sent). sent_of x ∷ l) (sent_of-append r rows)

++-assoc : (a b c : List Sent) → (a ++ b) ++ c ≡ a ++ (b ++ c)
++-assoc [] b c = refl
++-assoc (s ∷ a) b c = ap (λ (l : List Sent). s ∷ l) (++-assoc a b c)

++-nil : (a : List Sent) → a ++ [] ≡ a
++-nil [] = refl
++-nil (s ∷ a) = ap (λ (l : List Sent). s ∷ l) (++-nil a)

length-++ : (a b : List Sent) → length (a ++ b) ≡ length a + length b
length-++ [] b = omega arith
length-++ (s ∷ a) b = omega (arith, length-++ a b)

-- The outbox of `w'` has the records of `w` and after them those of at most `m` rows more, and `n` rows
-- have been marked.
pub record Has (w w' : World) (n m : ℕ) : Type 0 where
  pub new : List Sent
  pub records : map sent_of w'.outbox ≡ map sent_of w.outbox ++ new
  pub waiting : n + pending w'.outbox ≡ pending w.outbox + length new
  pub few : length new ≤ m

pub Has-refl : (w : World) → Has w w 0 0
Has-refl w = record {
  new = [];
  records = sym (++-nil (map sent_of w.outbox));
  waiting = omega arith;
  few = omega arith;
}

pub Has-trans : (u v w : World) (m n a b : ℕ) → Has u v m a → Has v w n b → Has u w (m + n) (a + b)
Has-trans u v w m n a b x y = record {
  new = x.new ++ y.new;
  records =
      y.records
      ∙ ap (λ (l : List Sent). l ++ y.new) x.records
      ∙ ++-assoc (map sent_of u.outbox) x.new y.new;
  waiting = omega (arith, x.waiting, y.waiting, length-++ x.new y.new);
  few = omega (arith, x.few, y.few, length-++ x.new y.new);
}

arrive-Has : (r : OutboxRow) (w : World) → Has w (arrive r w) 0 1
unfolding arrive
arrive-Has r w = elim (Bool-cases (has_row r.id w.outbox)) [
  | inl clash ↦ rw clash (record {
    new = [];
    records = sym (++-nil (map sent_of w.outbox));
    waiting = omega arith;
    few = omega arith;
  })
  | inr free ↦
      let row : OutboxRow = record r { published_at = none } in
      rw free (record {
        new = sent_of row ∷ [];
        records = sent_of-append row w.outbox;
        waiting = omega (arith, pending-append row w.outbox refl);
        few = omega arith;
      })
]

pub arrive_all-Has : (rs : List OutboxRow) (w : World) → Has w (arrive_all rs w) 0 (length rs)
unfolding arrive_all
arrive_all-Has [] w = Has-refl w
arrive_all-Has (r ∷ rs) w =
    subst (λ (m : ℕ). Has w (arrive_all rs (arrive r w)) 0 m) (omega arith)
      (Has-trans w (arrive r w) (arrive_all rs (arrive r w)) 0 0 1 (length rs) (arrive-Has r w)
        (arrive_all-Has rs (arrive r w)))

-- A pass marks its row, or fails and leaves the outbox as it was.
pub publish_row-Has :
    (f : Fate) (r : OutboxRow) (w : World)
    → IsRow r w.outbox
    → is_pending r ≡ true
    → IsValid w
    → Has w (publish_row f r w) (if is_well f then 1 else 0) 0
publish_row-Has f r w m waits v = elim (Bool-cases (is_well f)) [
  | inl good ↦ rw good (record {
    new = [];
    records = publish_row-records f r w ∙ sym (++-nil (map sent_of w.outbox));
    waiting = omega (arith, publish_row-pending f r w m waits v good);
    few = omega arith;
  })
  | inr bad ↦ rw bad (record {
    new = [];
    records = publish_row-records f r w ∙ sym (++-nil (map sent_of w.outbox));
    waiting = omega (arith, ap pending (publish_row-failed f r w bad));
    few = omega arith;
  })
]

-- A looser bound on the rows that have come.
pub Has-wider : (w w' : World) (n a b : ℕ) → a ≤ b → Has w w' n a → Has w w' n b
Has-wider w w' n a b le x = record {
  new = x.new;
  records = x.records;
  waiting = x.waiting;
  few = omega (arith, x.few);
}
