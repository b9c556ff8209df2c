-- ===== src/Endpoint.antt =====
-- The token buckets of hex-net-core/src/endpoint.rs: how often an address may start a handshake.
use hex_net.Common.{
  ℕ, ◌+◌, ◌-◌, ◌*◌, ◌/◌, ◌^◌, ◌≤◌, ◌<◌, ◌≡◌, ap, Bool, true, false, ◌&&◌, Option, some, List, [],
  ◌∷◌, arith, ltb, leb, ◌==◌, if◌then◌else◌, ◌>>=◌, u32_max, u64_max, Bool-cases, inl, inr, bit_and,
  get_elem?, set,
}
use hex_net.Time.Span.{Span, saturating_mul}
use hex_net.Time.Timestamp.{Timestamp, since, saturating_add}
use native.Mathlib.Nat.{div-mul-le_self, mul-le-mul_right, le-div_iff_mul-le, add-mul-div_right}

-- `RefillPolicy`.
pub record Policy : Type 0 where
  pub burst : ℕ
  pub interval : Span

pub record Bucket : Type 0 where
  pub tokens : ℕ
  pub last_refill : Timestamp

unfoldable pub full : Policy → Bucket
full p = record { tokens = p.burst; last_refill = 0 }

-- Whole intervals are credited, up to a full bucket.
unfoldable pub refill : Policy → Bucket → Timestamp → Bucket
refill p b now =
    let intervals = since now b.last_refill / p.interval in
    let missing = p.burst - b.tokens in
    if intervals == 0
    then b
    else (if leb intervals u32_max && ltb intervals missing
        then record {
          tokens = b.tokens + intervals;
          last_refill = saturating_add b.last_refill (saturating_mul p.interval intervals);
        }
        else record { tokens = p.burst; last_refill = now })

-- `reserve`, and `spend` of what it reserves: the bucket, and whether there was a token.
unfoldable pub take_token : Policy → Bucket → Timestamp → Bucket × Bool
take_token p b now =
    let b' = refill p b now in
    if ltb 0 b'.tokens then (record b' { tokens = b'.tokens - 1 }, true) else (b', false)

-- The table of `RateLimiter`; `mask` is its length less one, and the hash of an address is an argument.
pub record RateLimiter : Type 0 where
  pub slots : List Bucket
  pub mask : ℕ

unfoldable pub take : Policy → RateLimiter → Timestamp → ℕ → Option (RateLimiter × Bool)
take p r now hash = do
  bucket ← get_elem? r.slots (bit_and hash r.mask)
  (let (bucket', taken) = take_token p bucket now in
      some (record r { slots = set r.slots (bit_and hash r.mask) bucket' }, taken))

module _ (p : Policy) (proper : 0 < p.interval) (burst_word : p.burst < 2 ^ 32) where
  -- What has been spent and what is left was there at first or has been earned by time.
  record IsCovered (spent now : ℕ) (b : Bucket) : Type 0 where
    within : b.tokens ≤ p.burst
    past : b.last_refill ≤ now
    word : now ≤ u64_max
    covered : (spent + b.tokens) * p.interval ≤ p.burst * p.interval + b.last_refill

  refill-IsCovered :
      (spent before now : ℕ) (b : Bucket)
      → before ≤ now
      → now ≤ u64_max
      → IsCovered spent before b
      → IsCovered spent now (refill p b now)
  unfolding refill since saturating_add saturating_mul
  refill-IsCovered spent before now b le word c =
      let k = (now - b.last_refill) / p.interval in
      let whole = div-mul-le_self (now - b.last_refill) p.interval in
      elim (Bool-cases (k == 0)) [
        | inl nothing ↦ rw nothing (record {
          within = c.within;
          past = omega (arith, c.past);
          word = word;
          covered = c.covered;
        })
        | inr some_time ↦ elim (Bool-cases (leb k u32_max && ltb k (p.burst - b.tokens))) [
          | inl part ↦
              let fits : k < p.burst - b.tokens = ground arith in
              rw (some_time, part)
                (record {
                  within = omega arith;
                  past = omega (arith, c.past);
                  word = word;
                  covered = omega (arith, c.covered, c.past, whole);
                })
          | inr full_now ↦
              let enough : p.burst - b.tokens ≤ k = ground (arith, c.within) in
              let e : spent + p.burst ≡ spent + b.tokens + (p.burst - b.tokens) =
                omega (arith, c.within) in
              rw (some_time, full_now)
                (record {
                  within = omega arith;
                  past = omega arith;
                  word = word;
                  covered = omega (
                    arith,
                    c.covered,
                    c.past,
                    whole,
                    ap (λ t. t * p.interval) e,
                    mul-le-mul_right p.interval enough,
                  );
                })
        ]
      ]

  take_token-IsCovered :
      (spent before now : ℕ) (b : Bucket)
      → before ≤ now
      → now ≤ u64_max
      → IsCovered spent before b
      → IsCovered (spent + (if (take_token p b now).1 then 1 else 0)) now (take_token p b now).0
  unfolding take_token
  take_token-IsCovered spent before now b le word c =
      let r = refill-IsCovered spent before now b le word c in
      elim (Bool-cases (ltb 0 (refill p b now).tokens)) [
        | inl some_left ↦
            let left : 0 < (refill p b now).tokens = ground arith in
            let e : spent + 1 + ((refill p b now).tokens - 1) ≡ spent + (refill p b now).tokens =
              omega arith in
            rw some_left (record {
              within = omega (arith, r.within);
              past = r.past;
              word = r.word;
              covered = rw e r.covered;
            })
        | inr nothing ↦ rw nothing (record {
          within = r.within;
          past = r.past;
          word = r.word;
          covered = omega (arith, r.covered);
        })
      ]

  -- How many of the attempts at these instants get a token.
  unfoldable pub taken : Bucket → List Timestamp → ℕ
  taken b [] = 0
  taken b (now ∷ attempts) =
      (if (take_token p b now).1 then 1 else 0) + taken (take_token p b now).0 attempts

  -- Each instant at or after the one before, up to a last one.
  abbrev pub InOrder : ℕ → List Timestamp → ℕ → Type 0
  InOrder before [] last = before ≤ last
  InOrder before (now ∷ attempts) last = (before ≤ now) × InOrder now attempts last

  InOrder-le :
      (before : ℕ) (attempts : List Timestamp) (last : ℕ)
      → InOrder before attempts last
      → before ≤ last
  InOrder-le before [] last h = h
  InOrder-le before (now ∷ attempts) last (le, rest) =
      omega (arith, InOrder-le now attempts last rest)

  taken_bounded_from :
      (spent before : ℕ) (b : Bucket) (attempts : List Timestamp) (last : ℕ)
      → InOrder before attempts last
      → last ≤ u64_max
      → IsCovered spent before b
      → (spent + taken b attempts) * p.interval ≤ p.burst * p.interval + last
  unfolding taken
  taken_bounded_from spent before b [] last h word c = omega (
    arith,
    c.covered,
    c.past,
    mul-le-mul_right p.interval (let le : spent + 0 ≤ spent + b.tokens = omega arith in le),
  )
  taken_bounded_from spent before b (now ∷ attempts) last (le, rest) word c =
      let most = InOrder-le now attempts last rest in
      let c' = take_token-IsCovered spent before now b le (omega arith) c in
      let ih =
        taken_bounded_from (spent + (if (take_token p b now).1 then 1 else 0)) now
          (take_token p b now).0 attempts last rest word c' in
      let e : spent
            + ((if (take_token p b now).1 then 1 else 0) + taken (take_token p b now).0 attempts)
          ≡ spent
            + (if (take_token p b now).1 then 1 else 0)
            + taken (take_token p b now).0 attempts =
        omega arith in
      rw e ih

  -- However often and whenever an address tries, from a full bucket and at instants that do not go back,
  -- it gets at most one burst of tokens and one for each whole interval since the clock's origin.
  pub taken_bounded :
      (attempts : List Timestamp) (last : ℕ)
      → InOrder 0 attempts last
      → last ≤ u64_max
      → taken (full p) attempts ≤ p.burst + last / p.interval
  unfolding full
  taken_bounded attempts last order word =
      let start : IsCovered 0 0 (full p) = record {
        within = omega arith;
        past = omega arith;
        word = omega arith;
        covered = omega arith;
      } in
      let bound = taken_bounded_from 0 0 (full p) attempts last order word start in
      let whole : taken (full p) attempts * p.interval ≤ last + p.burst * p.interval =
        omega (arith, bound) in
      let quotient =
        (le-div_iff_mul-le {k = p.interval} {x = taken (full p) attempts}
            {y = last + p.burst * p.interval} proper).1
          whole in
      omega (arith, quotient, add-mul-div_right last p.burst {z = p.interval} proper)
