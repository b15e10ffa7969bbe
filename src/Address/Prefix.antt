-- ===== src/Address/Prefix.antt =====
-- The length of a prefix is read from its mask.
use server_frame.Prelude.{
  ℕ, ◌+◌, ◌-◌, ◌<◌, ◌≤◌, ◌≡◌, refl, sym, ap, ◌∙◌, List, [], Option, none, some, true, ◌==◌,
  holds_below, holds_at, ==_iff, arith,
}
use server_frame.Address.{
  create_mask, count_bits, subnet_mask, subnet_mask6, prefix_len_of, prefix_len_of6,
}

prefix_table : holds_below (λ p. prefix_len_of (subnet_mask (p + 1)) == p + 1) 32 ≡ true
unfolding holds_below create_mask count_bits subnet_mask prefix_len_of
prefix_table = refl

abbrev or_none : Option (List ℕ) → List ℕ
or_none o = elim o [ none ↦ [] | some bs ↦ bs ]

prefix6_table : holds_below (λ p. prefix_len_of6 (or_none (subnet_mask6 p)) == p) 128 ≡ true
unfolding holds_below create_mask count_bits subnet_mask6 prefix_len_of6
prefix6_table = refl

-- GetInterfaceAddresses reads a prefix of 1 to 32 bits back from the IPv4 mask that SubnetMask
-- makes of it, and one of less than 128 bits from the IPv6 mask.
pub prefix_len_of-subnet_mask :
    (p p6 : ℕ) (mask6 : List ℕ)
    → 1 ≤ p
    → p ≤ 32
    → p6 < 128
    → subnet_mask6 p6 ≡ some mask6
    → (prefix_len_of (subnet_mask p) ≡ p) × (prefix_len_of6 mask6 ≡ p6)
prefix_len_of-subnet_mask p p6 mask6 l h k e =
    let same : p - 1 + 1 ≡ p = omega arith in
    let t = (==_iff _ _).0 (
      holds_at (λ p. prefix_len_of (subnet_mask (p + 1)) == p + 1) 32 (p - 1) (omega arith)
        prefix_table) in
    let t6 =
      (==_iff _ _).0
        (holds_at (λ p. prefix_len_of6 (or_none (subnet_mask6 p)) == p) 128 p6 k prefix6_table) in
    (
      ap (λ q. prefix_len_of (subnet_mask q)) (sym same) ∙ t ∙ same,
      ap (λ o. prefix_len_of6 (or_none o)) (sym e) ∙ t6,
    )
