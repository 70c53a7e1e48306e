-- ===== src/Guard/Window.antt =====
-- The rate limiter against a log of the requests that it let through.
use mathlib.Core.List.{append-nil}
use deployguardai.Prelude.{
  ℕ, ◌≡◌, ◌≤◌, refl, sym, ◌∙◌, subst, Bool, false, List, [], ◌∷◌, ◌++◌, arith, inl, inr, leb, ltb,
  length, select, if◌then◌else◌, Bool-cases,
}
use deployguardai.Guard.Limiter.{
  Key, Buckets, same_key, bucket_of, store, drop_expired, ends_recent, compact, hit,
}
use deployguardai.Guard.Entries.{
  AreDistinct, has, has-select, same_key_eq, same_key_refl, bucket_of-store, AreDistinct-store,
  AreDistinct-select, bucket_of-missing,
}
use deployguardai.Guard.Times.{
  recent, Tracks, Tracks-later, Tracks-drop_expired, Tracks-append, Tracks-none,
  drop_expired-recent,
}

-- Requests that reach the limiter, with their times.
abbrev pub Requests : Type 0
Requests = List (Key × ℕ)

-- The times at which requests with the key stand in the log.
unfoldable pub times_of : Key → Requests → List ℕ
times_of k [] = []
times_of k ((k', time) ∷ log) = if same_key k' k then time ∷ times_of k log else times_of k log

-- Which requests the limiter turns away.
unfoldable pub answers : (window limit : ℕ) → Requests → Buckets → List Bool
answers window limit [] bs = []
answers window limit ((k, now) ∷ rs) bs =
    (hit window limit k now bs).0 ∷ answers window limit rs (hit window limit k now bs).1

-- A sliding window over the log of what was let through: a request is turned away where the log
-- holds `limit` requests with its key in the window.
unfoldable pub sliding_window : (window limit : ℕ) → Requests → (log : Requests) → List Bool
unfolding times_of
sliding_window window limit [] log = []
sliding_window window limit ((k, now) ∷ rs) log =
    let full = leb limit (length (recent window now (times_of k log))) in
    full ∷ sliding_window window limit rs (if full then log else log ++ (k, now) ∷ [])

-- The times do not go back.
abbrev pub IsInOrder : (clock : ℕ) → Requests → Type 0
IsInOrder clock [] = Unit
IsInOrder clock ((_, now) ∷ rs) = (clock ≤ now) × IsInOrder now rs

times_of-append :
    (q k : Key) (now : ℕ) (log : Requests)
    → times_of q (log ++ (k, now) ∷ []) ≡ times_of q log ++ (if same_key k q then now ∷ [] else [])
unfolding times_of
times_of-append q k now [] = ground arith
times_of-append q k now (e ∷ log) = ground (arith, times_of-append q k now log)

record Agrees (window now : ℕ) (bs : Buckets) (log : Requests) : Type 0 where
  distinct : AreDistinct bs
  tracks : (q : Key) → Tracks window now (bucket_of q bs) (times_of q log)

module _ (window now : ℕ) (q : Key) (times : List ℕ) where
  select-Tracks :
      (bs : Buckets)
      → AreDistinct bs
      → Tracks window now (bucket_of q bs) times
      → Tracks window now (bucket_of q (select (λ e. ends_recent window now e.1) bs)) times
  unfolding bucket_of
  select-Tracks [] d t = t
  select-Tracks ((k, b) ∷ bs) (free, d) t = elim (Bool-cases (ends_recent window now b)) [
    | inl kept ↦ rw kept (elim (Bool-cases (same_key k q)) [
      | inl here ↦ rw here (rw here at t)
      | inr away ↦ rw away (select-Tracks bs d (rw away at t))
    ])
    | inr gone ↦ rw gone (elim (Bool-cases (same_key k q)) [
      | inl here ↦
          let missing = has-select k (λ e. ends_recent window now e.1) bs free in
          let empty = bucket_of-missing q (select (λ e. ends_recent window now e.1) bs) (
            subst (λ x. has x (select (λ e. ends_recent window now e.1) bs) ≡ false)
              (same_key_eq k q here) missing) in
          subst (λ l. Tracks window now l times) (sym empty)
            (Tracks-none window now b times (rw here at t) gone)
      | inr away ↦ select-Tracks bs d (rw away at t)
    ])
  ]

compact-Agrees :
    (window now : ℕ) (bs : Buckets) (log : Requests)
    → Agrees window now bs log
    → Agrees window now (compact window now bs) log
unfolding compact
compact-Agrees window now bs log a = elim (Bool-cases (ltb 4096 (length bs))) [
  | inr few ↦ rw few a
  | inl many ↦ rw many record {
    distinct = AreDistinct-select (λ e. ends_recent window now e.1) bs a.distinct;
    tracks = λ q. select-Tracks window now q (times_of q log) bs a.distinct (a.tracks q);
  }
]

-- One bucket changes, and the log with it.
store-Agrees :
    (window now : ℕ) (k : Key) (b : List ℕ) (bs : Buckets) (log log' : Requests)
    → Agrees window now bs log
    → Tracks window now b (times_of k log')
    → ((q : Key) → same_key k q ≡ false → times_of q log' ≡ times_of q log)
    → Agrees window now (store k b bs) log'
store-Agrees window now k b bs log log' a t others = record {
  distinct = AreDistinct-store k b bs a.distinct;
  tracks = λ q.
      subst (λ l. Tracks window now l (times_of q log')) (sym (bucket_of-store k q b bs))
        (elim (Bool-cases (same_key k q)) [
          | inl same ↦
              rw same (subst (λ x. Tracks window now b (times_of x log')) (same_key_eq k q same) t)
          | inr other ↦ rw (other, others q other) (a.tracks q)
        ]);
}

module _ (window limit : ℕ) (k : Key) (now : ℕ) (bs : Buckets) (log : Requests)
    (a : Agrees window now bs log) where
  trimmed : List ℕ
  trimmed = drop_expired window now (bucket_of k bs)

  -- What is left of the bucket are the times of the log in the window.
  trimmed-recent : trimmed ≡ recent window now (times_of k log)
  unfolding trimmed
  trimmed-recent =
      drop_expired-recent window now (bucket_of k bs) (a.tracks k).ascending ∙ (a.tracks k).same

  is_full : Bool
  is_full = leb limit (length trimmed)

  refused-Agrees : Agrees window now (store k trimmed bs) log
  unfolding trimmed
  refused-Agrees =
      store-Agrees window now k _ bs log log a
        (Tracks-drop_expired window now (bucket_of k bs) (times_of k log) (a.tracks k))
        (λ q other. refl)

  admitted-Agrees :
      Agrees window now
        (compact window now (store k (trimmed ++ now ∷ []) bs))
        (log ++ (k, now) ∷ [])
  unfolding trimmed
  admitted-Agrees =
      let t =
        Tracks-append window now trimmed (times_of k log)
          (Tracks-drop_expired window now (bucket_of k bs) (times_of k log) (a.tracks k)) in
      compact-Agrees window now _ (log ++ (k, now) ∷ []) (
        store-Agrees window now k (trimmed ++ now ∷ []) bs log (log ++ (k, now) ∷ []) a
          (rw (times_of-append k k now log, same_key_refl k) t)
          (λ q other. rw (times_of-append q k now log, other) (append-nil (times_of q log))))

  hit-Agrees :
      ((hit window limit k now bs).0 ≡ leb limit (length (recent window now (times_of k log))))
      × Agrees window now (hit window limit k now bs).1 (
          if leb limit (length (recent window now (times_of k log)))
          then log
          else log ++ (k, now) ∷ [])
  unfolding hit trimmed is_full
  hit-Agrees = rw (← trimmed-recent) (elim (Bool-cases is_full) [
    | inl full ↦ rw full (refl, refused-Agrees)
    | inr free ↦ rw free (refl, admitted-Agrees)
  ])

Agrees-later :
    (window now later : ℕ) (bs : Buckets) (log : Requests)
    → now ≤ later
    → Agrees window now bs log
    → Agrees window later bs log
Agrees-later window now later bs log le a = record {
  distinct = a.distinct;
  tracks = λ q. Tracks-later window now (bucket_of q bs) (times_of q log) (a.tracks q) later le;
}

answers-sliding :
    (window limit clock : ℕ) (rs : Requests) (bs : Buckets) (log : Requests)
    → IsInOrder clock rs
    → Agrees window clock bs log
    → answers window limit rs bs ≡ sliding_window window limit rs log
unfolding answers sliding_window
answers-sliding window limit clock [] bs log o a = refl
answers-sliding window limit clock ((k, now) ∷ rs) bs log (le, o) a =
    let (e, a') =
      hit-Agrees window limit k now bs log (Agrees-later window clock now bs log le a) in
    rw (e, answers-sliding window limit now rs _ _ o a') refl

-- On requests in the order of their times, the limiter turns away exactly those that a sliding
-- window over a full log turns away, although it forgets expired times and idle clients.
pub answers-sliding_window :
    (window limit clock : ℕ) (rs : Requests)
    → IsInOrder clock rs
    → answers window limit rs [] ≡ sliding_window window limit rs []
unfolding bucket_of times_of
answers-sliding_window window limit clock rs o =
    answers-sliding window limit clock rs [] [] o
      record { distinct = tt; tracks = λ q. record { ascending = tt; past = tt; same = refl } }
