-- ===== src/Examples/Limits.antt =====
-- Concrete inputs for the theorems on ts/src/rate-limit.ts.
use hellgraph.Base.{
  ℕ, ◌+◌, ◌-◌, ◌*◌, ◌/◌, min, max, String, ◌≡◌, refl, true, false, none, List, [], ◌∷◌, arith, leb,
  ltb, ◌==◌,
}
use hellgraph.RateLimit.{Arithmetic, RateLimiter, new_limiter, take_token, refilled}
use hellgraph.RateLimit.Isolation.{answers, bucket_answers, times_of, new_limiter-answers}

-- Whole numbers, with times in milliseconds.
abbrev whole : Arithmetic
whole = record {
  Number = ℕ;
  zero = 0;
  one = 1;
  thousand = 1000;
  plus = λ a b. a + b;
  sub = λ a b. a - b;
  mul = λ a b. a * b;
  div = λ a b. a / b;
  min = λ a b. min a b;
  max = λ a b. max a b;
  at_least = λ a b. leb b a;
  above = λ a b. ltb b a;
}

-- One token a second, bursts of two.
abbrev limiter : RateLimiter whole
limiter = record { rate_per_sec = 1; burst = 2; max_keys = 10; buckets = [] }

abbrev calls : List (String × ℕ)
calls = ("a", 5) ∷ ("b", 6) ∷ ("a", 7) ∷ ("a", 8) ∷ ("a", 2000) ∷ []

new_limiter-answers_example :
    answers whole limiter "a" calls ≡ bucket_answers whole 1 2 none (5 ∷ 7 ∷ 8 ∷ 2000 ∷ [])
unfolding new_limiter times_of ◌==◌
new_limiter-answers_example = new_limiter-answers whole calls 1 2 10 limiter "a" refl (omega arith)

-- The third call finds the bucket empty.
answered : bucket_answers whole 1 2 none (5 ∷ 7 ∷ 8 ∷ 2000 ∷ []) ≡ true ∷ true ∷ false ∷ true ∷ []
unfolding bucket_answers take_token refilled
answered = refl
