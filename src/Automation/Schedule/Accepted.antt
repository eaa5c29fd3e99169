-- ===== src/Automation/Schedule/Accepted.antt =====
-- automation/scheduler/schedule.py: the schedules that `normalize_schedule` accepts.
use browser_cli.Prelude.{
  ℤ, pos, negsuc, String, ℕ, ◌≤◌, ◌<◌, ◌≡◌, Option, none, some, ◌||◌, inl, inr, refl, ap, ◌∙◌, leb,
  ltb, leb→le, ltb→lt, Bool-cases, if◌then◌else◌, ◌==◌, string_eq, arith,
}
use browser_cli.Automation.Schedule.{
  ZoneOperations, SchedulePayload, Schedule, manual, interval, daily, weekly, ScheduleError,
  invalid_hour, invalid_minute, Outcome, gives, refuses, ◌>>=◌, or_text, weekday_number, in_range,
  positive, known_weekday, of_kind, find, normalize_schedule,
}

gives-injective : {A : Type 0} (x y : A) → gives x ≡ gives y → x ≡ y
gives-injective x y e = ap (λ z. elim z [ gives a ↦ a | refuses _ ↦ x ]) e

bind-gives :
    {A B : Type 0} (m : Outcome A) (f : A → Outcome B) (b : B)
    → (m >>= f) ≡ gives b
    → (a : A) × (m ≡ gives a) × (f a ≡ gives b)
bind-gives (gives a) f b h = (a, refl, h)
bind-gives (refuses e) f b h = absurd (ground arith)

if_gives-le :
    (last n m : ℕ) (e : ScheduleError)
    → (if leb n last then gives n else refuses e) ≡ gives m
    → m ≤ last
if_gives-le last n m e h = elim (Bool-cases (leb n last)) [
  | inl t ↦ let same = gives-injective n m (rw t at h) in omega (arith, same, leb→le n last t)
  | inr f ↦ let clash = rw f at h in absurd (ground arith)
]

in_range-le :
    (last : ℕ) (e : ScheduleError) (x : Option ℤ) (n : ℕ) → in_range last e x ≡ gives n → n ≤ last
in_range-le last e none n h = absurd (ground arith)
in_range-le last e (some (negsuc _)) n h = absurd (ground arith)
in_range-le last e (some (pos m)) n h = if_gives-le last m n e h

positive-lt : (x : Option ℤ) (n : ℕ) → positive x ≡ gives n → 0 < n
positive-lt none n h = absurd (ground arith)
positive-lt (some (negsuc _)) n h = absurd (ground arith)
positive-lt (some (pos m)) n h = elim (Bool-cases (ltb 0 m)) [
  | inl t ↦ let same = gives-injective m n (rw t at h) in omega (arith, same, ltb→lt 0 m t)
  | inr f ↦ let clash = rw f at h in absurd (ground arith)
]

weekday_number-le : (x : String) (n : ℕ) → weekday_number x ≡ some n → n ≤ 6
weekday_number-le x n h = ground arith

known_weekday-le : (o : Option ℕ) (n : ℕ) → known_weekday o ≡ gives n → o ≡ some n
known_weekday-le none n h = absurd (ground arith)
known_weekday-le (some m) n h = ap some (gives-injective m n h)

abbrev pub IsInRange : Schedule → Type 0
IsInRange manual = Unit
IsInRange (interval seconds) = 0 < seconds
IsInRange (daily hour minute) = (hour ≤ 23) × (minute ≤ 59)
IsInRange (weekly weekday hour minute) = (weekday ≤ 6) × (hour ≤ 23) × (minute ≤ 59)

given : (s t : Schedule) → gives s ≡ gives t → IsInRange s → IsInRange t
given s t e h = rw (gives-injective s t e) at h

interval-IsInRange :
    (x : Option ℤ) (s : Schedule) → (do n ← positive x; gives (interval n)) ≡ gives s → IsInRange s
interval-IsInRange x s h =
    let (n, e, k) = bind-gives (positive x) (λ n. gives (interval n)) s h in
    given (interval n) s k (positive-lt x n e)

time-IsInRange :
    (f : ℕ → ℕ → Schedule) (x y : Option ℤ) (s : Schedule)
    → ((h m : ℕ) → h ≤ 23 → m ≤ 59 → IsInRange (f h m))
    → (do h ← in_range 23 invalid_hour x; m ← in_range 59 invalid_minute y; gives (f h m)) ≡ gives s
    → IsInRange s
time-IsInRange f x y s ok eq =
    let (h, e, k) =
      bind-gives (in_range 23 invalid_hour x)
        (λ h. do m ← in_range 59 invalid_minute y; gives (f h m)) s eq in
    let (m, e', k') = bind-gives (in_range 59 invalid_minute y) (λ m. gives (f h m)) s k in
    given (f h m) s k'
      (ok h m (in_range-le 23 invalid_hour x h e) (in_range-le 59 invalid_minute y m e'))

module _ {Z : Type 0} (o : ZoneOperations Z) where
  weekly-IsInRange :
      (p : SchedulePayload) (s : Schedule)
      → (do
        d ← known_weekday (weekday_number (o.strip_lower (or_text p.weekday)))
        h ← in_range 23 invalid_hour p.hour
        m ← in_range 59 invalid_minute p.minute
        gives (weekly d h m))
        ≡ gives s
      → IsInRange s
  weekly-IsInRange p s eq =
      let (d, e, k) =
        bind-gives (known_weekday (weekday_number (o.strip_lower (or_text p.weekday))))
          (λ d. do
            h ← in_range 23 invalid_hour p.hour
            m ← in_range 59 invalid_minute p.minute
            gives (weekly d h m))
          s eq in
      time-IsInRange (weekly d) p.hour p.minute s
        (λ h m a b. (weekday_number-le _ d (known_weekday-le _ d e), a, b)) k

  of_kind-IsInRange :
      (kind : String) (p : SchedulePayload) (s : Schedule)
      → of_kind o kind p ≡ gives s
      → IsInRange s
  of_kind-IsInRange kind p s h = elim (Bool-cases (kind == "manual" || kind == "")) [
    | inl e ↦ given manual s (rw e at h) tt
    | inr e ↦ elim (Bool-cases (kind == "interval")) [
      | inl f ↦ interval-IsInRange p.interval_seconds s (rw (e, f) at h)
      | inr f ↦ elim (Bool-cases (kind == "daily")) [
        | inl g ↦ time-IsInRange daily p.hour p.minute s (λ h m a b. (a, b)) (rw (e, f, g) at h)
        | inr g ↦ elim (Bool-cases (kind == "weekly")) [
          | inl w ↦ weekly-IsInRange p s (rw (e, f, g, w) at h)
          | inr w ↦ let clash = rw (e, f, g, w) at h in absurd (ground arith)
        ]
      ]
    ]
  ]

  found_zone :
      (timezone_name : String) (x : Option Z) (z : Z)
      → find o timezone_name x ≡ gives z
      → x ≡ some z
  found_zone timezone_name none z h = absurd (ground arith)
  found_zone timezone_name (some y) z h = ap some (gives-injective y z h)

  -- A schedule that is accepted has its zone, a positive interval, and its numbers in range.
  pub normalize_schedule-IsInRange :
      (kind : String) (p : SchedulePayload) (timezone_name : String) (z : Z) (s : Schedule)
      → normalize_schedule o kind p timezone_name ≡ gives (z, s)
      → (o.find_zone timezone_name ≡ some z) × IsInRange s
  unfolding normalize_schedule
  normalize_schedule-IsInRange kind p timezone_name z s h =
      let k = o.strip_lower (if kind == "" then "manual" else kind) in
      let (x, e, rest) =
        bind-gives (find o timezone_name (o.find_zone timezone_name))
          (λ x. do q ← of_kind o k p; gives (x, q)) (z, s) h in
      let (q, e', last) = bind-gives (of_kind o k p) (λ q. gives (x, q)) (z, s) rest in
      let same = gives-injective (x, q) (z, s) last in
      (
        found_zone timezone_name _ z (e ∙ ap (λ w. gives w) (ap (λ w. w.0) same)),
        rw (ap (λ w. w.1) same) at (of_kind-IsInRange k p q e'),
      )
