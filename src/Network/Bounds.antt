-- ===== src/Network/Bounds.antt =====
-- network.py: the two deques and their limits, and what `get_captured_records` answers.
use browser_cli.Prelude.{
  ℕ, ◌+◌, ◌-◌, ◌≤◌, zero, suc, List, [], ◌∷◌, ◌++◌, Bool, true, false, not, ◌≡◌, inl, inr, refl, ap,
  ◌∙◌, Bool-cases, Option-cases, length, drop, select, if◌then◌else◌, arith,
}
use mathlib.Core.List.{reverse}
use browser_cli.Network.Filter.{TextOperations, NetworkRecord, NetworkRecordFilter, matches}
use browser_cli.Network.Traffic.{
  Traffic, arrives, starts_capture, stops_capture, clears, reads, waits, ends_wait, step, run,
}
use browser_cli.Network.Store.{
  NetworkRecordStore, append, collect, get_captured_records, add_record, clear, wait_for_record,
  end_wait, first_match, init,
}

module _ {A : Type 0} where
  length-drop : (n : ℕ) (xs : List A) → length (drop n xs) ≡ length xs - n
  length-drop zero xs = ground arith
  length-drop (suc n) [] = ground arith
  length-drop (suc n) (x ∷ xs) = length-drop n xs ∙ ground arith

  length-snoc : (xs : List A) (x : A) → length (xs ++ x ∷ []) ≡ length xs + 1
  length-snoc [] x = refl
  length-snoc (y ∷ ys) x = ground (arith, length-snoc ys x)

  pub append-length : (limit : ℕ) (x : A) (xs : List A) → length (append limit x xs) ≤ limit
  unfolding append
  append-length limit x xs =
      omega (arith, length-drop (length (xs ++ x ∷ []) - limit) (xs ++ x ∷ []))

  append-short :
      (limit : ℕ) (x : A) (xs : List A) → length xs + 1 ≤ limit → append limit x xs ≡ xs ++ x ∷ []
  unfolding append
  append-short limit x xs h =
      let none_over : length (xs ++ x ∷ []) - limit ≡ 0 = omega (arith, length-snoc xs x, h) in
      rw none_over refl

  snoc_assoc : (xs : List A) (x : A) (ys : List A) → (xs ++ x ∷ []) ++ ys ≡ xs ++ x ∷ ys
  snoc_assoc [] x ys = refl
  snoc_assoc (z ∷ zs) x ys = ap (λ l. z ∷ l) (snoc_assoc zs x ys)

  snoc_nil : (xs : List A) → xs ≡ xs ++ []
  snoc_nil [] = refl
  snoc_nil (x ∷ xs) = ap (λ l. x ∷ l) (snoc_nil xs)

module _ {D : Type 0} (t : TextOperations) (f : NetworkRecordFilter) where
  abbrev pub misses : NetworkRecord D → Bool
  misses r = not (matches t f r)

  collect-select :
      (limit : ℕ) (rs ms xs : List (NetworkRecord D))
      → length xs + length rs ≤ limit
      → collect t f limit rs ms xs ≡ (ms ++ select (matches t f) rs, xs ++ select misses rs)
  unfolding collect
  collect-select limit [] ms xs h =
      ap (λ l. (l, xs)) (snoc_nil ms) ∙ ap (λ l. (ms ++ [], l)) (snoc_nil xs)
  collect-select limit (r ∷ rs) ms xs h = elim (Bool-cases (matches t f r)) [
    | inl e ↦ rw e (
        collect-select limit rs (ms ++ r ∷ []) xs (omega (arith, h))
        ∙ ap (λ l. (l, xs ++ select misses rs)) (snoc_assoc ms r (select (matches t f) rs)))
    | inr e ↦
        rw (e, append-short limit r xs (omega (arith, h)))
          (collect-select limit rs ms (xs ++ r ∷ []) (omega (arith, h, length-snoc xs r))
            ∙ ap (λ l. (ms ++ select (matches t f) rs, l)) (snoc_assoc xs r (select misses rs)))
  ]

  -- Within the limit, the records that match are answered in their order; with `clear` exactly the
  -- others stay captured, in their order, and without it nothing changes.
  pub get_captured_records-lem :
      (s : NetworkRecordStore D)
      → length s.captured_records ≤ s.capture_limit
      → (get_captured_records t f true s ≡ (
        select (matches t f) s.captured_records,
        record s { captured_records = select misses s.captured_records },
      ))
        × (get_captured_records t f false s ≡ (select (matches t f) s.captured_records, s))
  unfolding get_captured_records
  get_captured_records-lem s h =
      let parts = collect-select s.capture_limit s.captured_records [] [] (omega (arith, h)) in
      (rw parts refl, rw parts refl)

module _ {D : Type 0} (t : TextOperations) where
  abbrev pub IsBounded : NetworkRecordStore D → Type 0
  IsBounded s =
      (length s.recent_records ≤ s.recent_limit) × (length s.captured_records ≤ s.capture_limit)

  length-select :
      (p : NetworkRecord D → Bool) (xs : List (NetworkRecord D)) → length (select p xs) ≤ length xs
  length-select p [] = omega arith
  length-select p (x ∷ xs) = ground (arith, length-select p xs)

  if-IsBounded :
      (limit : ℕ) (b : Bool) (xs ys : List (NetworkRecord D))
      → length xs ≤ limit
      → length ys ≤ limit
      → length (if b then xs else ys) ≤ limit
  if-IsBounded limit true xs ys h k = h
  if-IsBounded limit false xs ys h k = k

  reads-IsBounded :
      (f : NetworkRecordFilter) (b : Bool) (s : NetworkRecordStore D)
      → IsBounded s
      → IsBounded (get_captured_records t f b s).1
  reads-IsBounded f true s (h, k) =
      rw ((get_captured_records-lem t f s k).0)
        (h, omega (arith, k, length-select (misses t f) s.captured_records))
  reads-IsBounded f false s (h, k) = rw ((get_captured_records-lem t f s k).1) (h, k)

  waits-IsBounded :
      (f : NetworkRecordFilter) (s : NetworkRecordStore D)
      → IsBounded s
      → IsBounded (wait_for_record t f s).1
  unfolding wait_for_record
  waits-IsBounded f s h = elim (Option-cases (first_match t f (reverse s.recent_records))) [
    | inl e ↦ rw (wait_for_record, e) h
    | inr (r, e) ↦ rw (wait_for_record, e) h
  ]

  step-IsBounded : (x : Traffic D) (s : NetworkRecordStore D) → IsBounded s → IsBounded (step t x s)
  unfolding step add_record clear end_wait
  step-IsBounded (arrives r) s (h, k) = (
    append-length s.recent_limit r s.recent_records,
    if-IsBounded s.capture_limit s.capturing _ _
        (append-length s.capture_limit r s.captured_records) k,
  )
  step-IsBounded starts_capture s (h, k) = (h, omega arith)
  step-IsBounded stops_capture s h = h
  step-IsBounded clears s h = (omega arith, omega arith)
  step-IsBounded (reads f b) s h = reads-IsBounded f b s h
  step-IsBounded (waits f) s h = waits-IsBounded f s h
  step-IsBounded (ends_wait n) s h = h

  run-IsBounded :
      (xs : List (Traffic D)) (s : NetworkRecordStore D) → IsBounded s → IsBounded (run t xs s)
  unfolding run
  run-IsBounded [] s h = h
  run-IsBounded (x ∷ xs) s h = run-IsBounded xs (step t x s) (step-IsBounded x s h)

  -- After any traffic, the recent and the captured records are within the limits of the store.
  pub runs-IsBounded :
      (recent_limit capture_limit : ℕ) (xs : List (Traffic D))
      → IsBounded (run t xs (init recent_limit capture_limit))
  runs-IsBounded recent_limit capture_limit xs =
      run-IsBounded xs (init recent_limit capture_limit) (omega arith, omega arith)
