-- ===== src/RateLimit.antt =====
-- The request counters of apps/server/src/http/postgres-rate-limit-store.ts. Moments are
-- microseconds, as in PostgreSQL, and the time window milliseconds.
pub mod Windows
mod Tests
use kajovo_cml.Prelude.{
  ℕ, ◌+◌, ◌-◌, ◌*◌, ◌/◌, min, max, Bool, true, false, Option, none, some, List, [], ◌∷◌, ◌++◌, ◌==◌,
  nat_eq, leb, find, update_where, or_else, if◌then◌else◌, is_some,
}
use kajovo_cml.Security.Text.{codes}

-- `routeInfo.method`.
pub data Method : Type 0 where
  one : List ℕ → Method
  many : List (List ℕ) → Method

pub record RouteInfo : Type 0 where
  pub method : Option Method
  pub url : Option (List ℕ)
  pub path : Option (List ℕ)

pub record StoreOptions : Type 0 where
  pub group_id : Option (List ℕ)
  pub route_info : Option RouteInfo
  pub time_window : Option ℕ

-- `join(",")`.
abbrev pub joined : List (List ℕ) → List ℕ
joined [] = []
joined (m ∷ []) = m
joined (m ∷ n ∷ rest) = m ++ b',' ∷ joined (n ∷ rest)

abbrev pub method_text : Option RouteInfo → List ℕ
method_text none = codes "GLOBAL"
method_text (some route) = elim route.method [
  | none ↦ codes "GLOBAL"
  | some m ↦ elim m [ one text ↦ text | many texts ↦ joined texts ]
]

abbrev pub route_text : Option RouteInfo → List ℕ
route_text none = codes "*"
route_text (some route) = or_else route.url (or_else route.path (codes "*"))

-- `scopeFor`; an empty group id counts as none.
pub scope_for : StoreOptions → List ℕ
scope_for options = elim options.group_id [
  | none ↦ method_text options.route_info ++ b':' ∷ route_text options.route_info
  | some group ↦ elim group [
    | [] ↦ method_text options.route_info ++ b':' ∷ route_text options.route_info
    | c ∷ rest ↦ c ∷ rest
  ]
]

-- A field of `{ ...this.options, ...routeOptions }`.
abbrev pub overridden {ℓ} : {A : Type ℓ} → Option A → Option A → Option A
overridden none new = new
overridden (some a) none = some a
overridden (some a) (some b) = some b

pub child : StoreOptions → StoreOptions → StoreOptions
child options route_options = record {
  group_id = overridden options.group_id route_options.group_id;
  route_info = overridden options.route_info route_options.route_info;
  time_window = overridden options.time_window route_options.time_window;
}

-- `Math.max(1, Math.trunc(this.options.timeWindow ?? 60_000))`.
abbrev pub time_window_of : StoreOptions → ℕ
time_window_of options = max 1 (or_else options.time_window 60000)

-- `http_rate_bucket`; `bucket_key` is its key.
pub record Bucket : Type 0 where
  pub bucket_key : ℕ
  pub window_started_at : ℕ
  pub request_count : ℕ
  pub updated_at : ℕ

abbrev pub count_limit : ℕ
count_limit = 2147483647

-- `do update set`.
unfoldable pub counted : ℕ → ℕ → Bucket → Bucket
counted now window b = record b {
  window_started_at =
      if leb (b.window_started_at + window * 1000) now then now else b.window_started_at;
  request_count =
      if leb (b.window_started_at + window * 1000) now
      then 1
      else min (b.request_count + 1) count_limit;
  updated_at = now;
}

-- `insert … on conflict (bucket_key) do update … returning`: the table, and the row it has now.
unfoldable pub upsert : List Bucket → ℕ → ℕ → ℕ → List Bucket × Bucket
unfolding counted
upsert buckets key now window = elim (find (λ (b : Bucket). b.bucket_key == key) buckets) [
  | none ↦
      let fresh : Bucket = record {
        bucket_key = key;
        window_started_at = now;
        request_count = 1;
        updated_at = now;
      } in
      (fresh ∷ buckets, fresh)
  | some b ↦ (
    update_where (λ (r : Bucket). r.bucket_key == key) (counted now window) buckets,
    counted now window b,
  )
]

-- The milliseconds until the window of a row ends, rounded up.
abbrev pub ttl_of : ℕ → ℕ → Bucket → ℕ
ttl_of now window b = (b.window_started_at + window * 1000 - now + 999) / 1000

pub record Hit : Type 0 where
  pub current : ℕ
  pub ttl : ℕ

-- `incr`, where the query succeeds; `hmac` is the keyed digest of a text.
module _ (hmac : List ℕ → ℕ) where
  abbrev pub bucket_key_of : StoreOptions → List ℕ → ℕ
  bucket_key_of options key = hmac (codes "kcml:http-rate:" ++ scope_for options ++ b':' ∷ key)

  unfoldable pub incr : StoreOptions → List Bucket → List ℕ → ℕ → List Bucket × Hit
  unfolding upsert
  incr options buckets key now =
      let window = time_window_of options in
      let (after, row) = upsert buckets (bucket_key_of options key) now window in
      (after, record { current = row.request_count; ttl = ttl_of now window row })
