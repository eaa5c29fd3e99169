-- ===== src/Network/Delivery.antt =====
-- What a record does to the waiters.
use browser_cli.Prelude.{
  ℕ, List, [], ◌∷◌, Option, none, some, Bool, true, false, ◌≡◌, ◌≢◌, ◌⊎◌, inl, inr, refl, sym, ap,
  ◌∙◌, In, nat_eq, Bool-cases, arith,
}
use browser_cli.Dict.{Dict, lookup, lookup-insert_self, lookup-insert_ne}
use browser_cli.Network.Filter.{TextOperations, NetworkRecord, matches}
use browser_cli.Network.Store.{
  NetworkRecordStore, NetworkWaiter, FutureState, pending, cancelled, resolved, received, receive,
  receive_at, deliver, add_record,
}

received_again :
    {D : Type 0} (b : Bool) (r : NetworkRecord D) (st : FutureState D)
    → received b r (received b r st) ≡ received b r st
received_again true r pending = refl
received_again false r pending = refl
received_again true r cancelled = refl
received_again false r cancelled = refl
received_again true r (resolved x) = refl
received_again false r (resolved x) = refl

pending-cases : {D : Type 0} (st : FutureState D) → (st ≡ pending) ⊎ (st ≢ pending)
pending-cases pending = inl refl
pending-cases cancelled = inr (λ e. absurd (ground (arith, e)))
pending-cases (resolved x) = inr (λ e. absurd (ground (arith, e)))

module _ {D : Type 0} (t : TextOperations) where
  receive_again :
      (r : NetworkRecord D) (w : NetworkWaiter D) → receive t r (receive t r w) ≡ receive t r w
  receive_again r w =
      ap (λ st. record w { future = st }) (received_again (matches t w.record_filter r) r w.future)

  receive_at_other :
      (r : NetworkRecord D) (n m : ℕ) (o : Option (NetworkWaiter D)) (fs : Dict ℕ (NetworkWaiter D))
      → n ≢ m
      → lookup n (receive_at t r m o fs) ≡ lookup n fs
  receive_at_other r n m none fs ne = refl
  receive_at_other r n m (some w) fs ne = lookup-insert_ne n m (receive t r w) fs ne

  receive_at_self :
      (r : NetworkRecord D) (n : ℕ) (w : NetworkWaiter D) (fs : Dict ℕ (NetworkWaiter D))
      → lookup n fs ≡ some w
      → lookup n (receive_at t r n (lookup n fs) fs) ≡ some (receive t r w)
  receive_at_self r n w fs h = rw h (lookup-insert_self n (receive t r w) fs)

  -- A waiter that the record does not change is kept as it is.
  deliver_same :
      (r : NetworkRecord D) (n : ℕ) (w : NetworkWaiter D) (ns : List ℕ)
      (fs : Dict ℕ (NetworkWaiter D))
      → lookup n fs ≡ some w
      → receive t r w ≡ w
      → lookup n (deliver t r ns fs).1 ≡ some w
  unfolding deliver
  deliver_same r n w [] fs h same = h
  deliver_same r n w (m ∷ ns) fs h same =
      deliver_same r n w ns (receive_at t r m (lookup m fs) fs)
        (elim (nat_eq.dec n m) [
          | yes e ↦ rw (sym e) (receive_at_self r n w fs h ∙ ap some same)
          | no ne ↦ receive_at_other r n m (lookup m fs) fs ne ∙ h
        ])
        same

  deliver-In :
      (r : NetworkRecord D) (n : ℕ) (w : NetworkWaiter D) (ns : List ℕ)
      (fs : Dict ℕ (NetworkWaiter D))
      → In n ns
      → lookup n fs ≡ some w
      → lookup n (deliver t r ns fs).1 ≡ some (receive t r w)
  unfolding deliver
  deliver-In r n w [] fs i h = elim i [ ]
  deliver-In r n w (m ∷ ns) fs i h = elim (nat_eq.dec n m) [
    | yes e ↦
        rw (sym e)
          (deliver_same r n (receive t r w) ns _ (receive_at_self r n w fs h) (receive_again r w))
    | no ne ↦
        deliver-In r n w ns _ (elim i [ inl e ↦ absurd (ne (sym e)) | inr j ↦ j ])
          (receive_at_other r n m (lookup m fs) fs ne ∙ h)
  ]

  receive-resolves :
      (r : NetworkRecord D) (w : NetworkWaiter D)
      → w.future ≡ pending
      → matches t w.record_filter r ≡ true
      → receive t r w ≡ record w { future = resolved r }
  receive-resolves r w e m = ap (λ st. record w { future = st }) (rw (e, m) refl)

  receive-keeps :
      (r : NetworkRecord D) (w : NetworkWaiter D)
      → (w.future ≢ pending) ⊎ (matches t w.record_filter r ≡ false)
      → receive t r w ≡ w
  receive-keeps r w h =
      ap (λ st. record w { future = st }) (same (matches t w.record_filter r) w.future h)
    where
      same : (b : Bool) (st : FutureState D) → (st ≢ pending) ⊎ (b ≡ false) → received b r st ≡ st
      same true pending h = elim h [ inl n ↦ absurd (n refl) | inr e ↦ absurd (ground (arith, e)) ]
      same false pending h = refl
      same true cancelled h = refl
      same false cancelled h = refl
      same true (resolved x) h = refl
      same false (resolved x) h = refl

  -- A listed waiter that is pending and whose filter matches an arriving record has its future resolved
  -- with that record; a listed one that is not pending, or whose filter does not match, stays as it is.
  pub add_record-delivers :
      (r : NetworkRecord D) (s : NetworkRecordStore D) (n : ℕ) (w : NetworkWaiter D)
      → In n s.waiters
      → lookup n s.futures ≡ some w
      → ((w.future ≡ pending)
          × (matches t w.record_filter r ≡ true)
          × (lookup n (add_record t r s).futures ≡ some (record w { future = resolved r })))
        ⊎ (((w.future ≢ pending) ⊎ (matches t w.record_filter r ≡ false))
            × (lookup n (add_record t r s).futures ≡ some w))
  unfolding add_record
  add_record-delivers r s n w i h =
      let got = deliver-In r n w s.waiters s.futures i h in
      elim (Bool-cases (matches t w.record_filter r)) [
        | inr m ↦ inr (inr m, got ∙ ap some (receive-keeps r w (inr m)))
        | inl m ↦ elim (pending-cases w.future) [
          | inl e ↦ inl (e, m, got ∙ ap some (receive-resolves r w e m))
          | inr ne ↦ inr (inl ne, got ∙ ap some (receive-keeps r w (inl ne)))
        ]
      ]
