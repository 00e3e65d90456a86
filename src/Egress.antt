-- ===== src/Egress.antt =====
-- What may leave the platform: the destinations of apps/server/src/onboarding/egress-proxy.ts and
-- the capabilities of apps/server/src/domain/egress.ts.
pub mod Capability
pub mod Revocation
pub mod Blocks
pub mod Ephemeral
mod Tests
use kajovo_cml.Prelude.{
  ℕ, Bool, true, false, not, ◌&&◌, ◌||◌, ◌==◌, nat_eq, string_eq, text_eq, Option, none, some, List,
  [], ◌∷◌, ◌++◌, map, String, any, all, leb, length, if◌then◌else◌,
}
use kajovo_cml.Security.Text.{codes, lower}

-- What `split(".").map(Number)` makes of an IPv4 address: a part that is a number, or none.
abbrev pub is_octet : Option ℕ → Bool
is_octet none = false
is_octet (some n) = leb n 255

unfoldable pub forbidden_network : ℕ → ℕ → Bool
forbidden_network a b =
    a == 0
    || a == 10
    || a == 127
    || leb 224 a
    || (a == 100 && leb 64 b && leb b 127)
    || (a == 169 && b == 254)
    || (a == 172 && leb 16 b && leb b 31)
    || (a == 192 && (b == 0 || b == 168))
    || (a == 198 && (b == 18 || b == 19))

-- `forbiddenIpv4`, on the parts of an address.
unfoldable pub forbidden_ipv4 : List (Option ℕ) → Bool
unfolding forbidden_network
forbidden_ipv4 (some a ∷ some b ∷ c ∷ d ∷ []) =
    not (leb a 255 && leb b 255 && is_octet c && is_octet d) || forbidden_network a b
forbidden_ipv4 _ = true

-- The parts of a `URL` that the proxy looks at.
pub record Url : Type 0 where
  pub protocol : String
  pub username : String
  pub password : String
  pub hostname : List ℕ
  pub port : List ℕ

-- `toLowerCase().replace(/\.$/, "")`.
pub without_last_dot : List ℕ → List ℕ
without_last_dot [] = []
without_last_dot (c ∷ []) = if c == b'.' then [] else c ∷ []
without_last_dot (c ∷ d ∷ s) = c ∷ without_last_dot (d ∷ s)

unfoldable pub host_of : List ℕ → List ℕ
unfolding lower without_last_dot
host_of hostname = without_last_dot (map lower hostname)

pub ends_with : List ℕ → List ℕ → Bool
ends_with suffix [] = suffix == []
ends_with suffix (c ∷ s) = suffix == c ∷ s || ends_with suffix s

-- `split(":")`: the text before the first colon, and the one between it and the next.
pub before_colon : List ℕ → List ℕ
before_colon [] = []
before_colon (c ∷ s) = let rest = before_colon s in if c == b':' then [] else c ∷ rest

pub behind_colon : List ℕ → Option (List ℕ)
unfolding before_colon
behind_colon [] = none
behind_colon (c ∷ s) =
    let rest = behind_colon s in if c == b':' then some (before_colon s) else rest

abbrev pub entry_port : List ℕ → List ℕ
unfolding behind_colon
entry_port entry = elim (behind_colon entry) [ none ↦ codes "443" | some p ↦ p ]

abbrev pub port_of : Url → List ℕ
port_of url = elim url.port [ [] ↦ codes "443" | c ∷ p ↦ c ∷ p ]

-- The names of the machine itself and of the clouds' metadata services.
unfoldable pub is_local : List ℕ → Bool
unfolding ends_with
is_local host =
    any (λ (name : List ℕ). name == host)
      (codes "localhost" ∷ codes "metadata.google.internal" ∷ codes "metadata.aws.internal" ∷ [])
    || ends_with (codes ".localhost") host

unfoldable pub matches_entry : List ℕ → List ℕ → List ℕ → Bool
unfolding before_colon behind_colon lower
matches_entry host port entry =
    before_colon (map lower entry) == host && entry_port (map lower entry) == port

-- `isAllowedDestination`.
unfoldable pub is_allowed_destination : Url → List (List ℕ) → Bool
unfolding host_of is_local matches_entry
is_allowed_destination url allowlist =
    if not (url.protocol == "https:") || not (url.username == "") || not (url.password == "")
    then false
    else if is_local (host_of url.hostname)
    then false
    else any (λ (entry : List ℕ). matches_entry (host_of url.hostname) (port_of url) entry)
        allowlist

pub record TcpTarget : Type 0 where
  pub hostname : List ℕ
  pub port : ℕ
  pub servername : List ℕ
  pub protocol : String

-- `isAllowedTcpTlsDestination`.
unfoldable pub is_allowed_tcp_tls_destination : TcpTarget → List TcpTarget → Bool
unfolding host_of lower
is_allowed_tcp_tls_destination target allowlist =
    if target.protocol == "TCP_TLS"
    then any
        (λ (entry : TcpTarget).
          map lower entry.hostname == host_of target.hostname
          && map lower entry.servername == host_of target.servername
          && (entry.port == target.port)
          && (entry.protocol == "TCP_TLS"))
        allowlist
    else false

-- `publicAddresses` behind the lookup of a name: the addresses are used only if there are some and
-- none is forbidden; `loopback` says that the test configuration allows an address.
unfoldable pub usable_addresses {ℓ} :
    {A : Type ℓ} → (A → Bool) → (A → Bool) → List A → Option (List A)
usable_addresses forbidden loopback addresses =
    if length addresses == 0 || any (λ a. forbidden a && not (loopback a)) addresses
    then none
    else some addresses
