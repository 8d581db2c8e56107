-- ===== src/RateLimit/Isolation.antt =====
-- What the keys of a limiter have to do with each other (ts/src/rate-limit.ts).
use hellgraph.Base.{
  ℕ, ◌+◌, ◌≤◌, ◌<◌, suc, String, ◌≡◌, ◌≢◌, inl, inr, refl, ap, subst, ◌∙◌, Bool, Option, none, some,
  List, [], ◌∷◌, ◌++◌, arith, length, length-append, ◌==◌, nat_eq, ◌||◌, ==_iff, Bool-cases,
  if◌then◌else◌,
}
use mathlib.Core.Option.{some-injective}
use hellgraph.Dict
use hellgraph.Dict.{Dict, IsUnique}
use hellgraph.RateLimit.{Arithmetic, Bucket, RateLimiter, new_limiter, take_token, evict, allow}

module _ {B : Type 0} where
  get-snoc :
      (m : Dict B) (j : String) (b : B) (k : String)
      → Dict.get m j ≡ none
      → Dict.get (m ++ (j, b) ∷ []) k ≡ (if j == k then some b else Dict.get m k)
  unfolding Dict.get
  get-snoc [] j b k h = refl
  get-snoc ((i, c) ∷ m) j b k h =
      ground (arith, ==_iff i j, ==_iff i k, ==_iff j k, get-snoc m j b k)

  snoc-IsUnique :
      (m : Dict B) (j : String) (b : B)
      → Dict.get m j ≡ none
      → IsUnique m
      → IsUnique (m ++ (j, b) ∷ [])
  unfolding Dict.get
  snoc-IsUnique [] j b h u = (refl, tt)
  snoc-IsUnique ((i, c) ∷ m) j b h u =
      ground (arith, ==_iff i j, ==_iff j i, get-snoc m j b i, snoc-IsUnique m j b)

  length-delete : (m : Dict B) (k : String) → length (Dict.delete m k) ≤ length m
  unfolding Dict.delete
  length-delete [] k = omega arith
  length-delete ((j, b) ∷ m) k = ground (arith, length-delete m k)

  deleted_gone : (m : Dict B) (k : String) → IsUnique m → Dict.get (Dict.delete m k) k ≡ none
  deleted_gone m k u = ground (arith, Dict.get-delete m k k u, ==_iff k k)

  length-put_back :
      (m : Dict B) (k : String) (b : B) → length (Dict.delete m k ++ (k, b) ∷ []) ≤ suc (length m)
  length-put_back m k b =
      omega (arith, length-append (Dict.delete m k) ((k, b) ∷ []), length-delete m k)

module _ (f : Arithmetic) where
  open f use {Number}

  length-evict : (cap : ℕ) (m : Dict (Bucket f)) → length m ≤ suc cap → length (evict f cap m) ≤ cap
  length-evict cap [] h = omega arith
  length-evict cap (e ∷ m) h = ground arith

  evict_room : (cap : ℕ) (m : Dict (Bucket f)) → length m ≤ cap → evict f cap m ≡ m
  evict_room cap [] h = refl
  evict_room cap (e ∷ m) h = ground arith

  -- Calls in order, with the answers to a key's calls.
  unfoldable pub answers : RateLimiter f → String → List (String × Number) → List Bool
  answers r k [] = []
  answers r k ((key, now) ∷ calls) =
      let rest = answers (allow f r key now).1 k calls in
      if key == k then (allow f r key now).0 ∷ rest else rest

  unfoldable pub after_calls : RateLimiter f → List (String × Number) → RateLimiter f
  after_calls r [] = r
  after_calls r ((key, now) ∷ calls) = after_calls (allow f r key now).1 calls

  -- The times of a key's calls.
  unfoldable pub times_of : String → List (String × Number) → List Number
  times_of k [] = []
  times_of k ((key, now) ∷ calls) =
      let rest = times_of k calls in if key == k then now ∷ rest else rest

  -- One bucket by itself, from the one that is there or from a fresh one.
  unfoldable pub bucket_answers : Number → Number → Option (Bucket f) → List Number → List Bool
  bucket_answers rate burst found [] = []
  bucket_answers rate burst found (now ∷ times) =
      let (ok, bucket) = take_token f rate burst found now in
      ok ∷ bucket_answers rate burst (some bucket) times

  abbrev found_at : RateLimiter f → String → Number → Bool × Bucket f
  found_at r key now = take_token f r.rate_per_sec r.burst (Dict.get r.buckets key) now

  -- With room for one more key, a call changes its own bucket alone.
  allow_room :
      (r : RateLimiter f) (key : String) (now : Number)
      → length r.buckets < r.max_keys
      → (allow f r key now).1.buckets
        ≡ Dict.delete r.buckets key ++ (key, (found_at r key now).1) ∷ []
  unfolding allow
  allow_room r key now h =
      evict_room r.max_keys (Dict.delete r.buckets key ++ (key, (found_at r key now).1) ∷ [])
        (omega (arith, length-put_back r.buckets key (found_at r key now).1))

  get-allow :
      (r : RateLimiter f) (key : String) (now : Number) (k : String)
      → length r.buckets < r.max_keys
      → IsUnique r.buckets
      → Dict.get (allow f r key now).1.buckets k
        ≡ (if key == k then some (found_at r key now).1 else Dict.get r.buckets k)
  get-allow r key now k h u =
      ap (λ (m : Dict (Bucket f)). Dict.get m k) (allow_room r key now h)
      ∙ ground (
        arith,
        get-snoc (Dict.delete r.buckets key) key (found_at r key now).1 k
            (deleted_gone r.buckets key u),
        Dict.get-delete r.buckets key k u,
      )

  allow-IsUnique :
      (r : RateLimiter f) (key : String) (now : Number)
      → length r.buckets < r.max_keys
      → IsUnique r.buckets
      → IsUnique (allow f r key now).1.buckets
  allow-IsUnique r key now h u = rw (allow_room r key now h) (
      snoc-IsUnique (Dict.delete r.buckets key) key _ (deleted_gone r.buckets key u)
        (Dict.delete-IsUnique r.buckets key u))

  length-allow :
      (r : RateLimiter f) (key : String) (now : Number)
      → length r.buckets < r.max_keys
      → length (allow f r key now).1.buckets ≤ suc (length r.buckets)
  length-allow r key now h =
      rw (allow_room r key now h) (length-put_back r.buckets key (found_at r key now).1)

  -- The answers to a key's calls, from what the limiter holds for the key.
  answers-from :
      (calls : List (String × Number)) (r : RateLimiter f) (k : String)
      → IsUnique r.buckets
      → length r.buckets + length calls ≤ r.max_keys
      → answers r k calls
        ≡ bucket_answers r.rate_per_sec r.burst (Dict.get r.buckets k) (times_of k calls)
  unfolding answers bucket_answers times_of allow
  answers-from [] r k u room = refl
  answers-from ((key, now) ∷ calls) r k u room =
      let has_room : length r.buckets < r.max_keys = omega arith in
      let q = (allow f r key now).1 in
      let rest =
        answers-from calls q k (allow-IsUnique r key now has_room u)
          (omega (arith, length-allow r key now has_room)) in
      let held = get-allow r key now k has_room u in
      elim (Bool-cases (key == k)) [
        | inl same ↦ rw same (
            ap ((found_at r key now).0 ∷◌) (
              rest
              ∙ ap
                  (λ (o : Option (Bucket f)).
                    bucket_answers r.rate_per_sec r.burst o (times_of k calls))
                  (held ∙ rw same refl))
            ∙ ap
                (λ (j : String).
                  let (ok, bucket) = found_at r j now in
                  ok ∷ bucket_answers r.rate_per_sec r.burst (some bucket) (times_of k calls))
                ((==_iff key k).0 same))
        | inr other ↦ rw other (
            rest
            ∙ ap
                (λ (o : Option (Bucket f)).
                  bucket_answers r.rate_per_sec r.burst o (times_of k calls))
                (held ∙ rw other refl))
      ]

  allow-capped :
      (r : RateLimiter f) (key : String) (now : Number)
      → length r.buckets ≤ r.max_keys
      → length (allow f r key now).1.buckets ≤ r.max_keys
  unfolding allow
  allow-capped r key now h =
      length-evict r.max_keys (Dict.delete r.buckets key ++ (key, (found_at r key now).1) ∷ [])
        (omega (arith, length-put_back r.buckets key (found_at r key now).1))

  after_calls-capped :
      (calls : List (String × Number)) (r : RateLimiter f)
      → length r.buckets ≤ r.max_keys
      → length (after_calls r calls).buckets ≤ r.max_keys
  unfolding after_calls allow
  after_calls-capped [] r h = h
  after_calls-capped ((key, now) ∷ calls) r h =
      after_calls-capped calls (allow f r key now).1 (allow-capped r key now h)

  -- With a cap of one key, a call on another key forgets what the first one spent: it is answered
  -- as at the start.
  pub evicted_answer :
      (r : RateLimiter f) (j k : String) (now : Number)
      → r.max_keys ≡ 1
      → r.buckets ≡ []
      → j ≢ k
      → (allow f (allow f (allow f r k now).1 j now).1 k now).0 ≡ (allow f r k now).0
  unfolding allow Dict.get Dict.delete
  evicted_answer r j k now cap empty ne = ground (arith, empty, cap, ==_iff j k, ==_iff k j)

  -- The keys are limited apart from each other, whatever the arithmetic: over any calls of a new
  -- limiter, no more of them than its cap, the answers to the calls of a key are those of one
  -- bucket by itself, fresh at the first call and given the times of the key's calls.
  pub new_limiter-answers :
      (calls : List (String × Number)) (rate burst : Number) (cap : ℕ) (r : RateLimiter f)
      (k : String)
      → new_limiter f rate burst cap ≡ some r
      → length calls ≤ cap
      → answers r k calls ≡ bucket_answers rate burst none (times_of k calls)
  unfolding new_limiter Dict.get
  new_limiter-answers calls rate burst cap r k made room =
      let fresh : RateLimiter f = record {
        rate_per_sec = rate;
        burst = burst;
        max_keys = cap;
        buckets = [];
      } in
      let bad = f.at_least f.zero rate || (f.at_least f.zero burst || nat_eq cap 0) in
      elim (Bool-cases bad) [
        | inl thrown ↦ absurd (cc (rw thrown at made))
        | inr fine ↦
            subst
              (λ (q : RateLimiter f).
                answers q k calls ≡ bucket_answers rate burst none (times_of k calls))
              (some-injective fresh r (rw fine at made))
              (answers-from calls fresh k tt (omega arith))
      ]
