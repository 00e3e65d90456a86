-- ===== src/Egress/Blocks.antt =====
-- The addresses that nobody may reach (apps/server/src/onboarding/egress-proxy.ts).
use kajovo_cml.Prelude.{
  ℕ, ◌+◌, ◌*◌, ◌/◌, ◌≤◌, Bool, true, false, ◌&&◌, ◌||◌, ◌==◌, nat_eq, some, [], ◌∷◌, leb, ◌≡◌, refl,
  arith,
}
use kajovo_cml.Egress.{forbidden_ipv4, forbidden_network}

-- `address` lies in the block number `index` of the given size.
abbrev pub block : ℕ → ℕ → ℕ → Bool
block size index address = address / size == index

-- The blocks in the octets of an address.
ten_bits : (a b : ℕ) → b ≤ 255 → (a * 4 + b / 64 == 401) ≡ (a == 100 && leb 64 b && leb b 127)
ten_bits a b h = ground arith

twelve_bits : (a b : ℕ) → b ≤ 255 → (a * 16 + b / 16 == 2753) ≡ (a == 172 && leb 16 b && leb b 31)
twelve_bits a b h = ground arith

fifteen_bits : (a b : ℕ) → b ≤ 255 → (a * 128 + b / 2 == 25353) ≡ (a == 198 && (b == 18 || b == 19))
fifteen_bits a b h = ground arith

link_local : (a b : ℕ) → b ≤ 255 → (a * 256 + b == 43518) ≡ (a == 169 && b == 254)
link_local a b h = ground arith

assigned : (a b : ℕ) → b ≤ 255 → (a * 256 + b == 49152) ≡ (a == 192 && b == 0)
assigned a b h = ground arith

private_192 : (a b : ℕ) → b ≤ 255 → (a * 256 + b == 49320) ≡ (a == 192 && b == 168)
private_192 a b h = ground arith

multicast_on :
    (a b c d : ℕ)
    → b ≤ 255
    → c ≤ 255
    → d ≤ 255
    → leb 3758096384 (((a * 256 + b) * 256 + c) * 256 + d) ≡ leb 224 a
multicast_on a b c d h₂ h₃ h₄ = ground arith

same_tests :
    (p q r s t u v w x y z : Bool)
    → (p || q || r || s || t || u || v || (w && (x || y)) || z)
      ≡ (p || q || r || s || t || u || v || (w && x) || (w && y) || z)
same_tests true q r s t u v w x y z = refl
same_tests false q r s t u v w x y z = ground arith

-- An IPv4 address is forbidden exactly if, as a number, it lies in one of the blocks 0.0.0.0/8,
-- 10.0.0.0/8, 127.0.0.0/8, 100.64.0.0/10, 169.254.0.0/16, 172.16.0.0/12, 192.0.0.0/16, 192.168.0.0/16
-- and 198.18.0.0/15, or from 224.0.0.0 on.
pub forbidden_ipv4-blocks :
    (a b c d : ℕ)
    → a ≤ 255
    → b ≤ 255
    → c ≤ 255
    → d ≤ 255
    → let address = ((a * 256 + b) * 256 + c) * 256 + d in
      forbidden_ipv4 (some a ∷ some b ∷ some c ∷ some d ∷ []) ≡ (
        block 16777216 0 address
        || block 16777216 10 address
        || block 16777216 127 address
        || leb 3758096384 address
        || block 4194304 401 address
        || block 65536 43518 address
        || block 1048576 2753 address
        || block 65536 49152 address
        || block 65536 49320 address
        || block 131072 25353 address)
unfolding forbidden_ipv4 forbidden_network
forbidden_ipv4-blocks a b c d h₁ h₂ h₃ h₄ =
    let address = ((a * 256 + b) * 256 + c) * 256 + d in
    let by_8 : address / 16777216 ≡ a = omega arith in
    let by_10 : address / 4194304 ≡ a * 4 + b / 64 = omega arith in
    let by_12 : address / 1048576 ≡ a * 16 + b / 16 = omega arith in
    let by_15 : address / 131072 ≡ a * 128 + b / 2 = omega arith in
    let by_16 : address / 65536 ≡ a * 256 + b = omega arith in
    let octets : (leb a 255 && leb b 255 && leb c 255 && leb d 255) ≡ true = ground arith in
    rw
      (
        by_8,
        by_10,
        by_12,
        by_15,
        by_16,
        multicast_on a b c d h₂ h₃ h₄,
        ten_bits a b h₂,
        twelve_bits a b h₂,
        fifteen_bits a b h₂,
        link_local a b h₂,
        assigned a b h₂,
        private_192 a b h₂,
        octets,
      )
      (same_tests (a == 0) (a == 10) (a == 127) (leb 224 a) (a == 100 && leb 64 b && leb b 127)
        (a == 169 && b == 254) (a == 172 && leb 16 b && leb b 31) (a == 192) (b == 0) (b == 168)
        (a == 198 && (b == 18 || b == 19)))
