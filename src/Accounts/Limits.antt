-- ===== src/Accounts/Limits.antt =====
-- internal/service/limits.go: Limiter and throttledReader.
--
-- rate.Limiter, of golang.org/x/time/rate, is an argument: a new one with a burst, and its Allow, which
-- gives the limiter after it. A rate and a bandwidth of 0 stand for the code's non-positive ones.
use tgwebdav.Base.{
  ==_iff, ◌≤◌, ◌<◌, ◌≡◌, refl, ap, ◌∙◌, max, inl, inr, arith, Bool-cases, find_first-test, ℕ, ◌+◌,
  ◌-◌, leb, Bool, true, false, not, Option, none, some, List, [], ◌∷◌, ◌==◌, ltb, length,
  if◌then◌else◌, keep, find_first,
}
use tgwebdav.Model.{Uuid, Instant, Bytes}
use tgwebdav.Store.{Error}

pub record RateLimiter : Type 1 where
  pub Tokens : Type 0
  -- `rate.NewLimiter(rate/60, burst)`
  pub new : ℕ → ℕ → Tokens
  pub allow : Instant → Tokens → Bool × Tokens

-- bucketIdleTTL, in nanoseconds
abbrev pub bucket_idle_ttl : ℕ
bucket_idle_ttl = 600000000000

module _ (rate : RateLimiter) where
  open rate use {Tokens}

  -- bucket, beside the user that is its key in `buckets`
  pub record Bucket : Type 0 where
    pub user : Uuid
    pub limiter : Tokens
    pub rate_per_min : ℕ
    pub last_seen : Instant

  abbrev pub bucket_of : Uuid → List Bucket → Option Bucket
  bucket_of user bs = find_first (λ (b : Bucket). b.user == user) bs

  -- `l.buckets[userID] = b`
  abbrev pub set_bucket : Bucket → List Bucket → List Bucket
  set_bucket b bs = b ∷ keep (λ (c : Bucket). not (c.user == b.user)) bs

  -- the bucket as it is, or a fresh one if there is none or the user's rate has changed
  unfoldable pub fresh_or : Option Bucket → Uuid → ℕ → Instant → Bucket
  fresh_or none user rate_per_min now = record {
    user = user;
    limiter = rate.new rate_per_min (max 1 rate_per_min);
    rate_per_min = rate_per_min;
    last_seen = now;
  }
  fresh_or (some b) user rate_per_min now =
      if b.rate_per_min == rate_per_min then record b { last_seen = now } else record {
        user = user;
        limiter = rate.new rate_per_min (max 1 rate_per_min);
        rate_per_min = rate_per_min;
        last_seen = now;
      }

  abbrev pub spend : Instant → Bucket → List Bucket → Bool × List Bucket
  spend now b bs =
      let (yes', limiter) = rate.allow now b.limiter in
      (yes', set_bucket (record b { limiter = limiter }) bs)

  -- Allow
  unfoldable pub allow : List Bucket → Uuid → ℕ → Instant → Bool × List Bucket
  unfolding fresh_or
  allow bs user rate_per_min now =
      if rate_per_min == 0
      then (true, bs)
      else spend now (fresh_or (bucket_of user bs) user rate_per_min now) bs

  -- sweep
  unfoldable pub sweep : List Bucket → Instant → List Bucket
  sweep bs now = keep (λ (b : Bucket). not (ltb b.last_seen (now - bucket_idle_ttl))) bs

-- What Read of a throttledReader came to: the bytes, the error, and how many WaitN was asked for.
pub record Throttled : Type 0 where
  pub bytes : Bytes
  pub error : Option Error
  pub waited : Option ℕ

abbrev pub paced : (ℕ → Option Error) → Bytes → Option Error → Throttled
paced wait bytes (some e) = record {
  bytes = bytes;
  error = some e;
  waited = if ltb 0 (length bytes) then some (length bytes) else none;
}
paced wait bytes none = record {
  bytes = bytes;
  error = if ltb 0 (length bytes) then wait (length bytes) else none;
  waited = if ltb 0 (length bytes) then some (length bytes) else none;
}

-- Read: `inner` is the wrapped reader, given room, and `wait` what WaitN answers.
unfoldable pub throttled_read : ℕ → (ℕ → Bytes × Option Error) → (ℕ → Option Error) → ℕ → Throttled
throttled_read burst inner wait room =
    if room == 0
    then record { bytes = []; error = none; waited = none }
    else let (bytes, e) = inner (if ltb burst room then burst else room) in paced wait bytes e

-- For a wrapped reader that gives no more than there is room for: a throttled read gives no more than
-- its room and its burst, and asks WaitN for exactly as many tokens as it gives bytes, and not at all
-- for none; so WaitN, which refuses more than the burst, is never asked for more.
pub throttled_read_bounds :
    (burst : ℕ) (inner : ℕ → Bytes × Option Error) (wait : ℕ → Option Error) (room : ℕ)
    → ((n : ℕ) → length (inner n).0 ≤ n)
    → (length (throttled_read burst inner wait room).bytes ≤ room)
      × (length (throttled_read burst inner wait room).bytes ≤ burst)
      × ((throttled_read burst inner wait room).waited ≡ (
          if ltb 0 (length (throttled_read burst inner wait room).bytes)
          then some (length (throttled_read burst inner wait room).bytes)
          else none))
unfolding throttled_read
throttled_read_bounds burst inner wait room h = elim (Bool-cases (room == 0)) [
  | inl t ↦ rw t (omega arith, omega arith, refl)
  | inr f ↦
      let capped = if ltb burst room then burst else room in
      rw f (sized (inner capped).0 (inner capped).1 (h capped) (ground arith) (ground arith))
]
  where
    sized :
        (bytes : Bytes) (e : Option Error) {n : ℕ}
        → length bytes ≤ n
        → n ≤ room
        → n ≤ burst
        → (length (paced wait bytes e).bytes ≤ room)
          × (length (paced wait bytes e).bytes ≤ burst)
          × ((paced wait bytes e).waited ≡ (
              if ltb 0 (length (paced wait bytes e).bytes)
              then some (length (paced wait bytes e).bytes)
              else none))
    sized bytes none a b c = (omega arith, omega arith, refl)
    sized bytes (some x) a b c = (omega arith, omega arith, refl)

module _ (rate : RateLimiter) where
  find_other :
      (user other : Uuid) (bs : List (Bucket rate))
      → (user == other) ≡ false
      → bucket_of rate other (keep (λ (c : Bucket rate). not (c.user == user)) bs)
        ≡ bucket_of rate other bs
  find_other user other [] h = refl
  find_other user other (b ∷ bs) h = elim (Bool-cases (b.user == user)) [
    | inl t ↦
        let away : (b.user == other) ≡ false =
          ap (λ u. u == other) ((==_iff b.user user).0 t) ∙ h in
        rw (t, away) (find_other user other bs h)
    | inr f ↦ elim (Bool-cases (b.user == other)) [
      | inl t ↦ rw (f, t) refl
      | inr g ↦ rw (f, g) (find_other user other bs h)
    ]
  ]

  find_none :
      (user : Uuid) (bs : List (Bucket rate))
      → bucket_of rate user (keep (λ (c : Bucket rate). not (c.user == user)) bs) ≡ none
  find_none user [] = refl
  find_none user (b ∷ bs) = elim (Bool-cases (b.user == user)) [
    | inl t ↦ rw t (find_none user bs)
    | inr f ↦ rw f (rw f (find_none user bs))
  ]

  find-keep-none :
      (user : Uuid) (p : Bucket rate → Bool) (bs : List (Bucket rate))
      → bucket_of rate user bs ≡ none
      → bucket_of rate user (keep p bs) ≡ none
  find-keep-none user p [] h = refl
  find-keep-none user p (b ∷ bs) h = elim (Bool-cases (b.user == user)) [
    | inl t ↦ cc (rw t at h)
    | inr f ↦ elim (Bool-cases (p b)) [
      | inl t ↦ rw (t, f) (find-keep-none user p bs (rw f at h))
      | inr g ↦ rw g (find-keep-none user p bs (rw f at h))
    ]
  ]

  -- The tokens that a request draws on: those of the user's bucket, if it is of this rate.
  abbrev pub tokens_for : Option (Bucket rate) → ℕ → rate.Tokens
  tokens_for none r = rate.new r (max 1 r)
  tokens_for (some b) r = if b.rate_per_min == r then b.limiter else rate.new r (max 1 r)

  fresh_or_lem :
      (user : Uuid) (bs : List (Bucket rate)) (r : ℕ) (now : Instant)
      → ((fresh_or rate (bucket_of rate user bs) user r now).user ≡ user)
        × ((fresh_or rate (bucket_of rate user bs) user r now).rate_per_min ≡ r)
        × ((fresh_or rate (bucket_of rate user bs) user r now).last_seen ≡ now)
        × ((fresh_or rate (bucket_of rate user bs) user r now).limiter
            ≡ tokens_for (bucket_of rate user bs) r)
  unfolding fresh_or
  fresh_or_lem user bs r now =
      go (bucket_of rate user bs) (λ b e.
        (==_iff b.user user).0 (find_first-test (λ (c : Bucket rate). c.user == user) bs b e))
    where
      go :
          (o : Option (Bucket rate))
          → ((b : Bucket rate) → o ≡ some b → b.user ≡ user)
          → ((fresh_or rate o user r now).user ≡ user)
            × ((fresh_or rate o user r now).rate_per_min ≡ r)
            × ((fresh_or rate o user r now).last_seen ≡ now)
            × ((fresh_or rate o user r now).limiter ≡ tokens_for o r)
      go none same = (refl, refl, refl, refl)
      go (some b) same = elim (Bool-cases (b.rate_per_min == r)) [
        | inl t ↦ rw t (same b refl, (==_iff b.rate_per_min r).0 t, refl, refl)
        | inr f ↦ rw f (refl, refl, refl, refl)
      ]

  -- whether ten minutes have not gone by
  in_time :
      (now later : Instant)
      → not (ltb now (later - bucket_idle_ttl)) ≡ leb later (now + 600000000000)
  in_time now later = ground arith

  -- A request of a limited rate, by one user, leaves the bucket of any other as it is; after it
  -- the user has a bucket of that rate, its answer and the tokens left are what the limiter gives
  -- for the tokens of the user's bucket before it (a new limiter's, with a burst of the rate and
  -- at least one, if there was none of that rate), and a sweep at any time keeps that bucket if
  -- not more than ten minutes have gone by since, and else removes it.
  pub allow-others :
      (bs : List (Bucket rate)) (user other : Uuid) (r : ℕ) (now later : Instant)
      → 0 < r
      → (user == other) ≡ false
      → (bucket_of rate other (allow rate bs user r now).1 ≡ bucket_of rate other bs)
        × (b : Bucket rate) × (bucket_of rate user (allow rate bs user r now).1 ≡ some b)
        × (bucket_of rate user (sweep rate (allow rate bs user r now).1 later)
            ≡ (if leb later (now + 600000000000) then some b else none))
        × (b.rate_per_min ≡ r)
        × (((allow rate bs user r now).0, b.limiter)
            ≡ rate.allow now (tokens_for (bucket_of rate user bs) r))
  unfolding allow sweep
  allow-others bs user other r now later limited apart =
      let test : (r == 0) ≡ false = ground arith in
      rw test
        (spent (fresh_or rate (bucket_of rate user bs) user r now) (fresh_or_lem user bs r now))
    where
      -- The sweep goes by the time of the last request.
      kept :
          (c : Bucket rate)
          → (c.user == user) ≡ true
          → c.user ≡ user
          → c.last_seen ≡ now
          → bucket_of rate user (
              keep
                (λ (x : Bucket rate). not (ltb x.last_seen (later - bucket_idle_ttl)))
                (set_bucket rate c bs))
            ≡ (if leb later (now + 600000000000) then some c else none)
      kept c mine u l =
          let timed : not (ltb c.last_seen (later - bucket_idle_ttl))
              ≡ leb later (now + 600000000000) =
            ap (λ k. not (ltb k (later - bucket_idle_ttl))) l ∙ in_time now later in
          elim (Bool-cases (leb later (now + 600000000000))) [
            | inl t ↦ rw (timed, t, mine) refl
            | inr f ↦
                rw (timed, f)
                  (find-keep-none user (λ x. not (ltb x.last_seen (later - bucket_idle_ttl)))
                    (keep (λ (x : Bucket rate). not (x.user == c.user)) bs)
                    (rw u (find_none user bs)))
          ]

      spent :
          (b : Bucket rate)
          → (b.user ≡ user)
            × (b.rate_per_min ≡ r)
            × (b.last_seen ≡ now)
            × (b.limiter ≡ tokens_for (bucket_of rate user bs) r)
          → (bucket_of rate other (spend rate now b bs).1 ≡ bucket_of rate other bs)
            × (c : Bucket rate) × (bucket_of rate user (spend rate now b bs).1 ≡ some c)
            × (bucket_of rate user (
                  keep
                    (λ (c : Bucket rate). not (ltb c.last_seen (later - bucket_idle_ttl)))
                    (spend rate now b bs).1)
                ≡ (if leb later (now + 600000000000) then some c else none))
            × (c.rate_per_min ≡ r)
            × (((spend rate now b bs).0, c.limiter)
                ≡ rate.allow now (tokens_for (bucket_of rate user bs) r))
      spent b (u, q, l, t) =
          let away : (b.user == other) ≡ false = ap (λ k. k == other) u ∙ apart in
          let mine : (b.user == user) ≡ true = (==_iff b.user user).1 u in
          let c : Bucket rate = record b { limiter = (rate.allow now b.limiter).1 } in
          (
            rw away (find_other b.user other bs away),
            c,
            rw mine refl,
            kept c mine u l,
            q,
            ap (rate.allow now) t,
          )
