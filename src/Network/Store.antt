-- ===== src/Network/Store.antt =====
-- network.py: `NetworkRecordStore`. A waiter is named by a number, its filter stands beside its future.
use browser_cli.Prelude.{
  ℕ, ◌+◌, ◌-◌, List, [], ◌∷◌, ◌++◌, Option, none, some, Bool, true, false, not, length, drop,
  select, ◌==◌, nat_eq, if◌then◌else◌,
}
use mathlib.Core.List.{reverse}
use browser_cli.Dict.{Dict, lookup, insert}
use browser_cli.Network.Filter.{TextOperations, NetworkRecord, NetworkRecordFilter, matches}

pub data FutureState (D : Type 0) : Type 0 where
  pending cancelled : FutureState D
  resolved : NetworkRecord D → FutureState D

pub record NetworkWaiter (D : Type 0) : Type 0 where
  pub record_filter : NetworkRecordFilter
  pub future : FutureState D

-- `futures` has every waiter there ever was, `waiters` those that the store lists.
pub record NetworkRecordStore (D : Type 0) : Type 0 where
  pub recent_limit : ℕ
  pub capture_limit : ℕ
  pub recent_records : List (NetworkRecord D)
  pub captured_records : List (NetworkRecord D)
  pub capturing : Bool
  pub waiters : List ℕ
  pub futures : Dict ℕ (NetworkWaiter D)
  pub next_waiter : ℕ

-- What `wait_for_record` comes to before it suspends: a recent record, or a new waiter.
pub data Wait (D : Type 0) : Type 0 where
  found : NetworkRecord D → Wait D
  waits_on : ℕ → Wait D

-- `deque(maxlen=limit).append(x)`
unfoldable pub append {ℓ} : {A : Type ℓ} → ℕ → A → List A → List A
append limit x xs = let ys = xs ++ x ∷ [] in drop (length ys - limit) ys

module _ {D : Type 0} where
  abbrev pub init : ℕ → ℕ → NetworkRecordStore D
  init recent_limit capture_limit = record {
    recent_limit = recent_limit;
    capture_limit = capture_limit;
    recent_records = [];
    captured_records = [];
    capturing = false;
    waiters = [];
    futures = [];
    next_waiter = 0;
  }

  abbrev pub start_capture : NetworkRecordStore D → NetworkRecordStore D
  start_capture s = record s { captured_records = []; capturing = true }

  abbrev pub stop_capture : NetworkRecordStore D → NetworkRecordStore D
  stop_capture s = record s { capturing = false }

  -- `waiter.future.cancel()`, unless it is done
  abbrev pub cancel_state : FutureState D → FutureState D
  cancel_state pending = cancelled
  cancel_state cancelled = cancelled
  cancel_state (resolved r) = resolved r

  abbrev pub cancel_future : NetworkWaiter D → NetworkWaiter D
  cancel_future w = record w { future = cancel_state w.future }

  abbrev pub cancel_at :
      ℕ → Option (NetworkWaiter D) → Dict ℕ (NetworkWaiter D) → Dict ℕ (NetworkWaiter D)
  cancel_at n none fs = fs
  cancel_at n (some w) fs = insert n (cancel_future w) fs

  unfoldable pub cancel_all : List ℕ → Dict ℕ (NetworkWaiter D) → Dict ℕ (NetworkWaiter D)
  cancel_all [] fs = fs
  cancel_all (n ∷ ns) fs = cancel_all ns (cancel_at n (lookup n fs) fs)

  unfoldable pub clear : NetworkRecordStore D → NetworkRecordStore D
  clear s = record s {
    recent_records = [];
    captured_records = [];
    waiters = [];
    futures = cancel_all s.waiters s.futures;
  }

abbrev pub received : {D : Type 0} → Bool → NetworkRecord D → FutureState D → FutureState D
received true r pending = resolved r
received false r pending = pending
received b r cancelled = cancelled
received b r (resolved x) = resolved x

module _ {D : Type 0} (t : TextOperations) where
  -- A waiter that is not done and whose filter matches gets the record.
  abbrev pub receive : NetworkRecord D → NetworkWaiter D → NetworkWaiter D
  receive r w = record w { future = received (matches t w.record_filter r) r w.future }

  -- It stays in the list if it is still pending.
  abbrev pub stays : NetworkWaiter D → Bool
  stays w = elim w.future [ pending ↦ true | cancelled ↦ false | resolved _ ↦ false ]

  abbrev pub receive_at :
      NetworkRecord D
      → ℕ
      → Option (NetworkWaiter D)
      → Dict ℕ (NetworkWaiter D)
      → Dict ℕ (NetworkWaiter D)
  receive_at r n none fs = fs
  receive_at r n (some w) fs = insert n (receive r w) fs

  abbrev pub stays_at : Option (NetworkWaiter D) → Bool
  stays_at none = false
  stays_at (some w) = stays w

  -- The loop over the waiters: those that remain, and the futures.
  unfoldable pub deliver :
      NetworkRecord D → List ℕ → Dict ℕ (NetworkWaiter D) → List ℕ × Dict ℕ (NetworkWaiter D)
  deliver r [] fs = ([], fs)
  deliver r (n ∷ ns) fs =
      let fs' = receive_at r n (lookup n fs) fs in
      let rest = deliver r ns fs' in
      (if stays_at (lookup n fs') then n ∷ rest.0 else rest.0, rest.1)

  unfoldable pub add_record : NetworkRecord D → NetworkRecordStore D → NetworkRecordStore D
  add_record r s =
      let delivered = deliver r s.waiters s.futures in
      record s {
        recent_records = append s.recent_limit r s.recent_records;
        captured_records =
            if s.capturing then append s.capture_limit r s.captured_records else s.captured_records;
        waiters = delivered.0;
        futures = delivered.1;
      }

  -- The loop of `get_captured_records`: what matches, and a new deque of what does not.
  unfoldable pub collect :
      NetworkRecordFilter
      → ℕ
      → List (NetworkRecord D)
      → List (NetworkRecord D)
      → List (NetworkRecord D)
      → List (NetworkRecord D) × List (NetworkRecord D)
  collect f limit [] matched retained = (matched, retained)
  collect f limit (r ∷ rs) matched retained =
      let hit = collect f limit rs (matched ++ r ∷ []) retained in
      let miss = collect f limit rs matched (append limit r retained) in
      if matches t f r then hit else miss

  unfoldable pub get_captured_records :
      NetworkRecordFilter
      → Bool
      → NetworkRecordStore D
      → List (NetworkRecord D) × NetworkRecordStore D
  get_captured_records f clear s =
      let parts = collect f s.capture_limit s.captured_records [] [] in
      (parts.0, if clear then record s { captured_records = parts.1 } else s)

  unfoldable pub first_match :
      NetworkRecordFilter → List (NetworkRecord D) → Option (NetworkRecord D)
  first_match f [] = none
  first_match f (r ∷ rs) = let rest = first_match f rs in if matches t f r then some r else rest

  abbrev pub add_waiter : NetworkRecordFilter → NetworkRecordStore D → NetworkRecordStore D
  add_waiter f s = record s {
    waiters = s.waiters ++ s.next_waiter ∷ [];
    futures = insert s.next_waiter (record { record_filter = f; future = pending }) s.futures;
    next_waiter = s.next_waiter + 1;
  }

  unfoldable pub wait_for_record :
      NetworkRecordFilter → NetworkRecordStore D → Wait D × NetworkRecordStore D
  wait_for_record f s = elim (first_match f (reverse s.recent_records)) [
    | some r ↦ (found r, s)
    | none ↦ (waits_on s.next_waiter, add_waiter f s)
  ]

-- The end of `wait_for_record`: a timeout cancels the future, and the waiter leaves the list.
unfoldable pub end_wait : {D : Type 0} → ℕ → NetworkRecordStore D → NetworkRecordStore D
end_wait n s = record s {
  waiters = select (λ m. not (m == n)) s.waiters;
  futures = cancel_at n (lookup n s.futures) s.futures;
}
