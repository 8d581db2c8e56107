-- ===== src/RateLimit.antt =====
-- ts/src/rate-limit.ts: the token bucket, over any arithmetic: the doubles of the source with their
-- rounding are a parameter, as are the times.
pub mod Isolation
use hellgraph.Base.{
  ℕ, ◌∷◌, ◌++◌, String, Bool, true, false, ◌||◌, Option, none, some, List, [], length, ltb, nat_eq,
  if◌then◌else◌,
}
use hellgraph.Dict
use hellgraph.Dict.{Dict}

-- The numbers of the source, with the operations and tests that the limiter uses.
pub record Arithmetic : Type 1 where
  pub Number : Type 0
  pub zero : Number
  pub one : Number
  pub thousand : Number
  pub plus : Number → Number → Number
  pub sub : Number → Number → Number
  pub mul : Number → Number → Number
  pub div : Number → Number → Number
  pub min : Number → Number → Number
  pub max : Number → Number → Number
  pub at_least : Number → Number → Bool
  pub above : Number → Number → Bool

module _ (f : Arithmetic) where
  open f use {Number}

  pub record Bucket : Type 0 where
    pub tokens : Number
    pub last : Number

  pub record RateLimiter : Type 0 where
    pub rate_per_sec : Number
    pub burst : Number
    pub max_keys : ℕ
    pub buckets : Dict Bucket

  -- The constructor; `none` is one of its errors.
  unfoldable pub new_limiter : Number → Number → ℕ → Option RateLimiter
  new_limiter rate burst cap =
      if f.at_least f.zero rate || (f.at_least f.zero burst || nat_eq cap 0)
      then none
      else some (record { rate_per_sec = rate; burst = burst; max_keys = cap; buckets = [] })

  abbrev pub or_fresh : Number → Number → Option Bucket → Bucket
  or_fresh burst now none = record { tokens = burst; last = now }
  or_fresh burst now (some b) = b

  -- The tokens after the refill, before one is taken.
  unfoldable pub refilled : Number → Number → Bucket → Number → Number
  refilled rate burst b now =
      let refill = f.mul (f.div (f.sub now b.last) f.thousand) rate in
      f.min burst (f.plus b.tokens (f.max f.zero refill))

  -- The first key leaves when there are too many.
  abbrev pub evict : ℕ → Dict Bucket → Dict Bucket
  evict cap [] = []
  evict cap (e ∷ m) = if ltb cap (length (e ∷ m)) then m else e ∷ m

  -- The answer for a bucket that is there or not, and the bucket that it leaves.
  unfoldable pub take_token : Number → Number → Option Bucket → Number → Bool × Bucket
  take_token rate burst found now =
      let tokens = refilled rate burst (or_fresh burst now found) now in
      let ok = f.at_least tokens f.one in
      (ok, record { tokens = if ok then f.sub tokens f.one else tokens; last = now })

  -- `allow`: the answer and the limiter that it leaves. The bucket is put back at the end.
  unfoldable pub allow : RateLimiter → String → Number → Bool × RateLimiter
  allow r key now =
      let (ok, bucket) = take_token r.rate_per_sec r.burst (Dict.get r.buckets key) now in
      (
        ok,
        record r { buckets = evict r.max_keys (Dict.delete r.buckets key ++ (key, bucket) ∷ []) },
      )

  unfoldable pub sweep_buckets : Number → Number → Dict Bucket → Dict Bucket
  sweep_buckets idle now [] = []
  sweep_buckets idle now ((k, b) ∷ m) =
      let rest = sweep_buckets idle now m in
      if f.above (f.sub now b.last) idle then rest else (k, b) ∷ rest

  unfoldable pub sweep : RateLimiter → Number → Number → RateLimiter
  sweep r idle now = record r { buckets = sweep_buckets idle now r.buckets }
