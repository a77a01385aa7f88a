-- ===== src/Fetch/Address/Blocks.antt =====
-- The address rules as a table of network blocks.
use magazine_core.Base.{
  ℕ, ◌+◌, ◌*◌, ◌-◌, ◌/◌, ◌^◌, ◌<◌, ◌≡◌, ◌↔◌, ◌⊎◌, Bool, true, false, List, [], ◌∷◌, Any, arith,
  ◌||◌, ◌&&◌, not, some,
}
use magazine_core.Fetch.Address.{
  is_private, is_loopback_v4, is_loopback_v6, is_link_local, is_unspecified_v4, is_broadcast,
  is_multicast_v4, Ipv4Addr, Ipv6Addr, v4, v6, forbidden_v4, to_ipv4_mapped, ResolvedAddressPolicy,
  default, dev_allow_loopback, forbidden_ip_for_policy, shared_carrier_grade_nat,
}

pub record IsIpv4 (ip : Ipv4Addr) : Type 0 where
  pub a : ip.a < 256
  pub b : ip.b < 256
  pub c : ip.c < 256
  pub d : ip.d < 256

-- The address as a number of 32 bits.
abbrev pub to_bits : Ipv4Addr → ℕ
to_bits ip = ip.a * 2 ^ 24 + ip.b * 2 ^ 16 + ip.c * 2 ^ 8 + ip.d

-- The dotted address of a block, and the bits behind its prefix.
abbrev block : ℕ → ℕ → ℕ → ℕ → ℕ → ℕ × ℕ
block a b c d prefix = (a * 2 ^ 24 + b * 2 ^ 16 + c * 2 ^ 8 + d, 32 - prefix)

-- `addr` lies in the block.
abbrev pub InBlock : ℕ → ℕ × ℕ → Type 0
InBlock addr (base, host_bits) = addr / 2 ^ host_bits ≡ base / 2 ^ host_bits

-- 127.0.0.0/8.
abbrev pub loopback_block : ℕ × ℕ
loopback_block = block 127 0 0 0 8

-- The private networks, link-local, the unspecified and the broadcast address, multicast, and the
-- shared addresses of carrier-grade NAT.
abbrev pub other_blocks : List (ℕ × ℕ)
other_blocks =
    block 10 0 0 0 8
    ∷ block 172 16 0 0 12
    ∷ block 192 168 0 0 16
    ∷ block 169 254 0 0 16
    ∷ block 0 0 0 0 32
    ∷ block 255 255 255 255 32
    ∷ block 224 0 0 0 4
    ∷ block 100 64 0 0 10
    ∷ []

||_iff : {a b : Bool} {P Q : Type 0} → (a ≡ true) ↔ P → (b ≡ true) ↔ Q → ((a || b) ≡ true) ↔ (P ⊎ Q)
||_iff f g = ground arith

and_not : (a b : Bool) → ((a || b) && not a) ≡ true → b ≡ true
and_not a b e = ground arith

and_not_back : (a b : Bool) → b ≡ true → (a && b) ≡ false → ((a || b) && not a) ≡ true
and_not_back a b e f = ground arith

-- A disjunction of six tests, the first of which stands for three blocks.
tests_iff :
    {a b c d e f : Bool} {P Q R S T U V W : Type 0}
    → (a ≡ true) ↔ (P ⊎ Q ⊎ R)
    → (b ≡ true) ↔ S
    → (c ≡ true) ↔ T
    → (d ≡ true) ↔ U
    → (e ≡ true) ↔ V
    → (f ≡ true) ↔ W
    → ((a || b || c || d || e || f) ≡ true) ↔ (P ⊎ (Q ⊎ (R ⊎ (S ⊎ (T ⊎ (U ⊎ (V ⊎ (W ⊎ ⊥))))))))
tests_iff p q r s t u = ground arith

module _ (ip : Ipv4Addr) (h : IsIpv4 ip) where
  abbrev In : ℕ × ℕ → Type 0
  In = InBlock (to_bits ip)

  is_private_iff :
      (is_private ip ≡ true)
      ↔ (In (block 10 0 0 0 8) ⊎ In (block 172 16 0 0 12) ⊎ In (block 192 168 0 0 16))
  is_private_iff = ground arith

  is_loopback_iff : (is_loopback_v4 ip ≡ true) ↔ In loopback_block
  is_loopback_iff = ground arith

  is_link_local_iff : (is_link_local ip ≡ true) ↔ In (block 169 254 0 0 16)
  is_link_local_iff = ground arith

  is_unspecified_iff : (is_unspecified_v4 ip ≡ true) ↔ In (block 0 0 0 0 32)
  is_unspecified_iff = ground arith

  is_broadcast_iff : (is_broadcast ip ≡ true) ↔ In (block 255 255 255 255 32)
  is_broadcast_iff = ground arith

  is_multicast_iff : (is_multicast_v4 ip ≡ true) ↔ In (block 224 0 0 0 4)
  is_multicast_iff = ground arith

  shared_iff : (shared_carrier_grade_nat ip ≡ true) ↔ In (block 100 64 0 0 10)
  unfolding shared_carrier_grade_nat
  shared_iff = ground arith

  -- The tests of `forbidden_v4` besides the one for loopback.
  abbrev other_tests : Bool
  other_tests =
      is_private ip
      || is_link_local ip
      || is_unspecified_v4 ip
      || is_broadcast ip
      || is_multicast_v4 ip
      || shared_carrier_grade_nat ip

  other_tests_iff : (other_tests ≡ true) ↔ Any In other_blocks
  other_tests_iff =
      tests_iff is_private_iff is_link_local_iff is_unspecified_iff is_broadcast_iff
        is_multicast_iff shared_iff

  forbidden_v4-tests : forbidden_v4 ip ≡ (is_loopback_v4 ip || other_tests)
  unfolding forbidden_v4
  forbidden_v4-tests = ground arith

  others_not_loopback : (is_loopback_v4 ip && other_tests) ≡ false
  unfolding shared_carrier_grade_nat
  others_not_loopback = ground arith

  -- By default an IPv4 address is refused exactly if it lies in one of the nine blocks; the
  -- development allowance frees the loopback block and no other address.
  pub forbidden_v4_iff :
      ((forbidden_ip_for_policy (v4 ip) default ≡ true)
        ↔ Any (InBlock (to_bits ip)) (loopback_block ∷ other_blocks))
      × ((forbidden_ip_for_policy (v4 ip) dev_allow_loopback ≡ true)
          ↔ Any (InBlock (to_bits ip)) other_blocks)
  unfolding forbidden_ip_for_policy
  forbidden_v4_iff = (
    rw forbidden_v4-tests (||_iff is_loopback_iff other_tests_iff),
    rw forbidden_v4-tests (
      λ e. other_tests_iff.0 (and_not _ _ e),
      λ p. and_not_back _ _ (other_tests_iff.1 p) others_not_loopback,
    ),
  )

mapped-not_loopback :
    (ip : Ipv6Addr) (mapped : Ipv4Addr)
    → to_ipv4_mapped ip ≡ some mapped
    → is_loopback_v6 ip ≡ false
unfolding to_ipv4_mapped
mapped-not_loopback ip mapped e = ground arith

-- An IPv4-mapped IPv6 address is judged as the IPv4 address, under either policy.
forbidden_mapped :
    (ip : Ipv6Addr) (mapped : Ipv4Addr) (policy : ResolvedAddressPolicy)
    → to_ipv4_mapped ip ≡ some mapped
    → forbidden_ip_for_policy (v6 ip) policy ≡ forbidden_ip_for_policy (v4 mapped) policy
unfolding forbidden_ip_for_policy
forbidden_mapped ip mapped default e = ground (arith, e)
forbidden_mapped ip mapped dev_allow_loopback e = ground (arith, e, mapped-not_loopback ip mapped e)
