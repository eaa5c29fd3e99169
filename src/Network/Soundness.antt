-- ===== src/Network/Soundness.antt =====
-- network.py: what a waiter gets, and what a call that waits is answered.
use browser_cli.Prelude.{
  ℕ, List, [], ◌∷◌, ◌++◌, Option, none, some, Bool, true, false, ◌≡◌, ◌⊎◌, inl, inr, refl, sym, ap,
  ◌∙◌, Bool-cases, Option-cases, All, nat_eq, arith,
}
use mathlib.Core.List.{reverse}
use browser_cli.Dict.{Dict, lookup, insert, insert-cases, lookup-nil}
use browser_cli.Network.Filter.{TextOperations, NetworkRecord, NetworkRecordFilter, matches}
use browser_cli.Network.Store.{
  NetworkRecordStore, NetworkWaiter, FutureState, pending, cancelled, resolved, received, receive,
  receive_at, deliver, add_record, cancel_state, cancel_future, cancel_at, cancel_all, clear,
  end_wait, wait_for_record, first_match, add_waiter, get_captured_records, init, found, waits_on,
}
use browser_cli.Network.Traffic.{
  Traffic, arrives, starts_capture, stops_capture, clears, reads, waits, ends_wait, step, run,
}

resolved-injective : {D : Type 0} (x y : NetworkRecord D) → resolved x ≡ resolved y → x ≡ y
resolved-injective x y e = ap (λ z. elim z [ resolved a ↦ a | pending ↦ x | cancelled ↦ x ]) e

module _ {D : Type 0} (t : TextOperations) where
  -- What the waiter has got, its filter matches.
  abbrev pub IsMatched : NetworkWaiter D → Type 0
  IsMatched w = (x : NetworkRecord D) → w.future ≡ resolved x → matches t w.record_filter x ≡ true

  abbrev pub AllMatched : Dict ℕ (NetworkWaiter D) → Type 0
  AllMatched fs = (n : ℕ) (w : NetworkWaiter D) → lookup n fs ≡ some w → IsMatched w

  insert-AllMatched :
      (n : ℕ) (w : NetworkWaiter D) (fs : Dict ℕ (NetworkWaiter D))
      → IsMatched w
      → AllMatched fs
      → AllMatched (insert n w fs)
  insert-AllMatched n w fs ok all m v h = elim (insert-cases m n w v fs h) [
    | inl (_, e) ↦ rw (sym e) ok
    | inr (_, before) ↦ all m v before
  ]

  received-matched :
      (f : NetworkRecordFilter) (b : Bool) (r : NetworkRecord D) (st : FutureState D)
      → matches t f r ≡ b
      → ((x : NetworkRecord D) → st ≡ resolved x → matches t f x ≡ true)
      → (x : NetworkRecord D) → received b r st ≡ resolved x
      → matches t f x ≡ true
  received-matched f true r pending e ok x h = ap (matches t f) (sym (resolved-injective r x h)) ∙ e
  received-matched f false r pending e ok x h = ok x h
  received-matched f true r cancelled e ok x h = ok x h
  received-matched f false r cancelled e ok x h = ok x h
  received-matched f true r (resolved y) e ok x h = ok x h
  received-matched f false r (resolved y) e ok x h = ok x h

  receive_at-AllMatched :
      (r : NetworkRecord D) (n : ℕ) (o : Option (NetworkWaiter D)) (fs : Dict ℕ (NetworkWaiter D))
      → lookup n fs ≡ o
      → AllMatched fs
      → AllMatched (receive_at t r n o fs)
  receive_at-AllMatched r n none fs e all = all
  receive_at-AllMatched r n (some w) fs e all =
      insert-AllMatched n (receive t r w) fs
        (received-matched w.record_filter _ r w.future refl (all n w e)) all

  deliver-AllMatched :
      (r : NetworkRecord D) (ns : List ℕ) (fs : Dict ℕ (NetworkWaiter D))
      → AllMatched fs
      → AllMatched (deliver t r ns fs).1
  unfolding deliver
  deliver-AllMatched r [] fs all = all
  deliver-AllMatched r (n ∷ ns) fs all =
      deliver-AllMatched r ns _ (receive_at-AllMatched r n (lookup n fs) fs refl all)

  cancelled-matched :
      (f : NetworkRecordFilter) (st : FutureState D)
      → ((x : NetworkRecord D) → st ≡ resolved x → matches t f x ≡ true)
      → (x : NetworkRecord D) → cancel_state st ≡ resolved x
      → matches t f x ≡ true
  cancelled-matched f pending ok x h = absurd (ground arith)
  cancelled-matched f cancelled ok x h = ok x h
  cancelled-matched f (resolved y) ok x h = ok x h

  cancel_at-AllMatched :
      (n : ℕ) (o : Option (NetworkWaiter D)) (fs : Dict ℕ (NetworkWaiter D))
      → lookup n fs ≡ o
      → AllMatched fs
      → AllMatched (cancel_at n o fs)
  cancel_at-AllMatched n none fs e all = all
  cancel_at-AllMatched n (some w) fs e all =
      insert-AllMatched n (cancel_future w) fs
        (cancelled-matched w.record_filter w.future (all n w e)) all

  cancel_all-AllMatched :
      (ns : List ℕ) (fs : Dict ℕ (NetworkWaiter D)) → AllMatched fs → AllMatched (cancel_all ns fs)
  unfolding cancel_all
  cancel_all-AllMatched [] fs all = all
  cancel_all-AllMatched (n ∷ ns) fs all =
      cancel_all-AllMatched ns _ (cancel_at-AllMatched n (lookup n fs) fs refl all)

  wait-AllMatched :
      (f : NetworkRecordFilter) (s : NetworkRecordStore D)
      → AllMatched s.futures
      → AllMatched (wait_for_record t f s).1.futures
  unfolding wait_for_record
  wait-AllMatched f s all = elim (Option-cases (first_match t f (reverse s.recent_records))) [
    | inr (r, e) ↦ rw (wait_for_record, e) all
    | inl e ↦
        rw (wait_for_record, e)
          (insert-AllMatched s.next_waiter _ s.futures (λ x h. absurd (ground arith)) all)
  ]

  get-AllMatched :
      (f : NetworkRecordFilter) (b : Bool) (s : NetworkRecordStore D)
      → AllMatched s.futures
      → AllMatched (get_captured_records t f b s).1.futures
  unfolding get_captured_records
  get-AllMatched f true s all = all
  get-AllMatched f false s all = all

  step-AllMatched :
      (x : Traffic D) (s : NetworkRecordStore D)
      → AllMatched s.futures
      → AllMatched (step t x s).futures
  unfolding step add_record clear end_wait
  step-AllMatched (arrives r) s all = deliver-AllMatched r s.waiters s.futures all
  step-AllMatched starts_capture s all = all
  step-AllMatched stops_capture s all = all
  step-AllMatched clears s all = cancel_all-AllMatched s.waiters s.futures all
  step-AllMatched (reads f b) s all = get-AllMatched f b s all
  step-AllMatched (waits f) s all = wait-AllMatched f s all
  step-AllMatched (ends_wait n) s all =
      cancel_at-AllMatched n (lookup n s.futures) s.futures refl all

  run-AllMatched :
      (xs : List (Traffic D)) (s : NetworkRecordStore D)
      → AllMatched s.futures
      → AllMatched (run t xs s).futures
  unfolding run
  run-AllMatched [] s all = all
  run-AllMatched (x ∷ xs) s all = run-AllMatched xs (step t x s) (step-AllMatched x s all)

  -- After any traffic, every record that a waiter has got is one that its filter matches.
  pub runs-AllMatched :
      (recent_limit capture_limit : ℕ) (xs : List (Traffic D))
      → AllMatched (run t xs (init recent_limit capture_limit)).futures
  runs-AllMatched recent_limit capture_limit xs =
      run-AllMatched xs (init recent_limit capture_limit)
        (λ n w h. absurd (ground (arith, lookup-nil {V = NetworkWaiter D} n)))

  -- The first match of a list, with what comes before it.
  abbrev pub IsFirst : NetworkRecordFilter → NetworkRecord D → List (NetworkRecord D) → Type 0
  IsFirst f r rs =
      (before : List (NetworkRecord D)) × (after : List (NetworkRecord D)) × (rs
        ≡ before ++ r ∷ after)
      × All (λ x. matches t f x ≡ false) before
      × (matches t f r ≡ true)

  first_match-IsFirst :
      (f : NetworkRecordFilter) (rs : List (NetworkRecord D))
      → ((first_match t f rs ≡ none) × All (λ x. matches t f x ≡ false) rs)
        ⊎ ((r : NetworkRecord D) × (first_match t f rs ≡ some r) × IsFirst f r rs)
  unfolding first_match
  first_match-IsFirst f [] = inl (refl, tt)
  first_match-IsFirst f (x ∷ rs) = elim (Bool-cases (matches t f x)) [
    | inl e ↦ inr (x, rw e refl, ([], rs, refl, tt, e))
    | inr e ↦ elim (first_match-IsFirst f rs) [
      | inl (g, all) ↦ inl (rw e g, (e, all))
      | inr (r, g, (before, after, split, all, hit)) ↦
          inr (r, rw e g, (x ∷ before, after, ap (λ l. x ∷ l) split, (e, all), hit))
    ]
  ]

  abbrev pub IsAnswer : NetworkRecordFilter → NetworkRecordStore D → Type 0
  IsAnswer f s =
      (All (λ x. matches t f x ≡ false) (reverse s.recent_records)
        × (wait_for_record t f s ≡ (waits_on s.next_waiter, add_waiter t f s)))
      ⊎ ((r : NetworkRecord D) × IsFirst f r (reverse s.recent_records)
          × (wait_for_record t f s ≡ (found r, s)))

  -- A call that waits is answered at once with the newest recent record that matches, which changes
  -- nothing; where none matches it adds a waiter that is pending.
  pub wait_for_record-IsAnswer : (f : NetworkRecordFilter) (s : NetworkRecordStore D) → IsAnswer f s
  unfolding wait_for_record
  wait_for_record-IsAnswer f s = elim (first_match-IsFirst f (reverse s.recent_records)) [
    | inl (e, all) ↦ inl (all, rw (wait_for_record, e) refl)
    | inr (r, e, first) ↦ inr (r, first, rw (wait_for_record, e) refl)
  ]
