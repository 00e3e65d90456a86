-- ===== src/RateLimit/Windows.antt =====
-- How requests are counted over time (apps/server/src/http/postgres-rate-limit-store.ts).
use kajovo_cml.Prelude.{
  ℕ, ◌+◌, ◌-◌, ◌*◌, ◌/◌, ◌≤◌, ◌<◌, min, Option, some, List, [], ◌∷◌, ◌==◌, nat_eq, nat_beq_iff, leb,
  find, find-update_where, find-passes, ◌≡◌, refl, ◌⊎◌, inl, inr, arith, Option-cases,
  if◌then◌else◌, ◌∙◌,
}
use kajovo_cml.RateLimit.{
  Bucket, StoreOptions, count_limit, counted, upsert, time_window_of, bucket_key_of, incr,
}

abbrev pub bucket_of : List Bucket → ℕ → Option Bucket
bucket_of buckets key = find (λ (b : Bucket). b.bucket_key == key) buckets

-- The row that the statement returns is the one that the next statement finds.
upsert-bucket_of :
    (buckets : List Bucket) (key now window : ℕ)
    → bucket_of (upsert buckets key now window).0 key ≡ some (upsert buckets key now window).1
unfolding upsert counted
upsert-bucket_of buckets key now window = elim (Option-cases (bucket_of buckets key)) [
  | inl missing ↦ rw (missing, upsert) (rw ((nat_beq_iff key key).1 refl) refl)
  | inr (b, found) ↦
      let same = find-passes (λ (r : Bucket). r.bucket_key == key) buckets found in
      let moved =
        find-update_where (λ (r : Bucket). r.bucket_key == key)
          (λ (r : Bucket). r.bucket_key == key) (counted now window) (λ r. refl) buckets in
      rw (found, upsert) (moved ∙ rw found (rw same refl))
]

pub upsert-counted :
    (buckets : List Bucket) (key now window : ℕ) (b : Bucket)
    → bucket_of buckets key ≡ some b
    → (upsert buckets key now window).1 ≡ counted now window b
unfolding upsert
upsert-counted buckets key now window b found = rw (found, upsert) refl

-- The statements of a sequence of requests with one key, at the moments `times`.
pub upsert_all : List Bucket → ℕ → ℕ → List ℕ → List Bucket
upsert_all buckets key window [] = buckets
upsert_all buckets key window (now ∷ times) =
    upsert_all (upsert buckets key now window).0 key window times

counted_open :
    (now window : ℕ) (b : Bucket)
    → 1 ≤ window
    → now < (counted now window b).window_started_at + window * 1000
unfolding counted
counted_open now window b wide = ground arith

upsert_open :
    (buckets : List Bucket) (key now window : ℕ)
    → 1 ≤ window
    → now < (upsert buckets key now window).1.window_started_at + window * 1000
unfolding upsert
upsert_open buckets key now window wide = elim (Option-cases (bucket_of buckets key)) [
  | inl missing ↦ rw (missing, upsert) (omega arith)
  | inr (b, found) ↦ rw (found, upsert) (counted_open now window b wide)
]

-- A window that ends at `e`, seen at `now` and at `later`.
at_boundary :
    (e now later count : ℕ)
    → now < e
    → let ttl = (e - now + 999) / 1000 in
      ((now + ttl * 1000 < later + 1000) ⊎ ((if leb e later then 1 else count) ≡ count))
      × ((later < now + ttl * 1000) ⊎ ((if leb e later then 1 else count) ≡ 1))
      × (1 ≤ ttl)
at_boundary e now later count h = ground arith

-- A window restarts no earlier than the answer's time to live says, to the millisecond: the next
-- request counts one more while at least a millisecond of it is left, and starts again at one when
-- it has passed.
pub ttl_exact :
    (hmac : List ℕ → ℕ) (options : StoreOptions) (buckets : List Bucket) (key : List ℕ)
    (now later : ℕ)
    → let (after, hit) = incr hmac options buckets key now in
      let next = (incr hmac options after key later).1 in
      ((now + hit.ttl * 1000 < later + 1000) ⊎ (next.current ≡ min (hit.current + 1) count_limit))
      × ((later < now + hit.ttl * 1000) ⊎ (next.current ≡ 1))
      × (1 ≤ hit.ttl)
unfolding incr
ttl_exact hmac options buckets key now later =
    let window = time_window_of options in
    let k = bucket_key_of hmac options key in
    let first = upsert-bucket_of buckets k now window in
    let second = upsert-counted (upsert buckets k now window).0 k later window _ first in
    rw second (at_boundary _ now later _ (upsert_open buckets k now window (ground arith)))
