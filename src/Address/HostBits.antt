-- ===== src/Address/HostBits.antt =====
-- The broadcast address and the subnet mask, by the bits of the host.
use server_frame.Prelude.{
  ℕ, zero, suc, ◌+◌, ◌-◌, ◌*◌, ◌/◌, ◌%◌, ◌^◌, ◌<◌, ◌≤◌, ◌≡◌, refl, sym, ap, ◌∙◌, List, [], ◌∷◌,
  Option, none, some, true, ◌==◌, ◌&&◌, ltb-false, bit_or, map, replicate, length, All, holds_below,
  holds_at, same, same→≡, arith,
}
use server_frame.Address.{
  create_mask, network_order, zip_with, broadcast_address, subnet_mask, change, fill, fill_before,
  broadcast_address6, subnet_mask6,
}

-- The `n` bytes of an address of which the bits of the network, `p` of them, are 0 and those of
-- the host are 1.
pub host_bits : ℕ → ℕ → List ℕ
host_bits p zero = []
host_bits p (suc n) = (2 ^ (8 - p) - 1) ∷ host_bits (p - 8) n

mask_table :
    holds_below (λ p. same (network_order (create_mask 32 (p + 1))) (host_bits (p + 1) 4)) 32 ≡ true
unfolding holds_below create_mask host_bits
mask_table = refl

or_table : holds_below (λ b. (bit_or b 0 == b) && (bit_or b 255 == 255)) 256 ≡ true
unfolding holds_below
or_table = refl

or_byte : (b : ℕ) → b < 256 → (bit_or b 0 ≡ b) × (bit_or b 255 ≡ 255)
or_byte b l =
    let h = holds_at (λ b. (bit_or b 0 == b) && (bit_or b 255 == 255)) 256 b l or_table in
    ground (arith, h)

mask-host_bits : (p : ℕ) → 1 ≤ p → p ≤ 32 → network_order (create_mask 32 p) ≡ host_bits p 4
mask-host_bits p l h =
    let e : p - 1 + 1 ≡ p = omega arith in
    let t =
      holds_at (λ p. same (network_order (create_mask 32 (p + 1))) (host_bits (p + 1) 4)) 32 (p - 1)
        (omega arith) mask_table in
    ap (λ q. network_order (create_mask 32 q)) (sym e) ∙ same→≡ _ _ t ∙ ap (λ q. host_bits q 4) e

fill-host_bits :
    (bs : List ℕ)
    → All (λ b. b < 256) bs
    → fill 0 255 bs ≡ zip_with bit_or bs (host_bits 0 (length bs))
unfolding host_bits
fill-host_bits [] l = refl
fill-host_bits (b ∷ bs) (l, ls) = rw ((or_byte b l).1, fill-host_bits bs ls)

cons-eq : {a b : ℕ} {xs ys : List ℕ} → a ≡ b → xs ≡ ys → a ∷ xs ≡ b ∷ ys
cons-eq e f = cc

-- No bit of the host in a byte of the network, and the bits in the byte where they begin.
host_byte_none : (p : ℕ) → 8 ≤ p → 2 ^ (8 - p) - 1 ≡ 0
host_byte_none p l = let e : 8 - p ≡ 0 = omega arith in rw e

host_byte_first : (p r : ℕ) → p ≡ r → create_mask 8 r ≡ 2 ^ (8 - p) - 1
unfolding create_mask
host_byte_first p r e = rw e

-- The prefix ends in the byte `q`, of which `r` bits are the network's.
change-host_bits :
    (q r p : ℕ) (bs : List ℕ)
    → p ≡ 8 * q + r
    → r < 8
    → q < length bs
    → All (λ b. b < 256) bs
    → (cs : List ℕ) × (change q (λ b. bit_or b (create_mask 8 r)) bs ≡ some cs)
      × (fill (suc q) 255 cs ≡ zip_with bit_or bs (host_bits p (length bs)))
unfolding host_bits
change-host_bits q r p [] e h k l = absurd (omega arith)
change-host_bits zero r p (b ∷ bs) e h k (l, ls) =
    let rest : p - 8 ≡ 0 = omega arith in
    (
      bit_or b (create_mask 8 r) ∷ bs,
      refl,
      cons-eq (ap (bit_or b) (host_byte_first p r (omega arith))) (
          fill-host_bits bs ls ∙ ap (λ t. zip_with bit_or bs (host_bits t (length bs))) (sym rest)),
    )
change-host_bits (suc q) r p (b ∷ bs) e h k (l, ls) =
    let (cs, changed, filled) = change-host_bits q r (p - 8) bs (omega arith) h (omega arith) ls in
    (
      b ∷ cs,
      rw changed,
      cons-eq (sym (or_byte b l).0 ∙ ap (bit_or b) (sym (host_byte_none p (omega arith)))) filled,
    )

abbrev complement : ℕ → ℕ
complement b = 255 - b

zero-host_bits : (n : ℕ) → replicate n 0 ≡ map complement (host_bits 0 n)
unfolding host_bits
zero-host_bits zero = refl
zero-host_bits (suc n) = cons-eq refl (zero-host_bits n)

mask6-host_bits :
    (q r p n : ℕ)
    → p ≡ 8 * q + r
    → r < 8
    → q < n
    → (cs : List ℕ) × (change q (λ b. 255 - create_mask 8 r) (replicate n 0) ≡ some cs)
      × (fill_before q 255 cs ≡ map complement (host_bits p n))
unfolding host_bits
mask6-host_bits q r p zero e h k = absurd (omega arith)
mask6-host_bits zero r p (suc n) e h k =
    let rest : p - 8 ≡ 0 = omega arith in
    (
      (255 - create_mask 8 r) ∷ replicate n 0,
      refl,
      cons-eq (ap complement (host_byte_first p r (omega arith)))
          (zero-host_bits n ∙ ap (λ t. map complement (host_bits t n)) (sym rest)),
    )
mask6-host_bits (suc q) r p (suc n) e h k =
    let (cs, changed, filled) = mask6-host_bits q r (p - 8) n (omega arith) h (omega arith) in
    (0 ∷ cs, rw changed, cons-eq (ap complement (sym (host_byte_none p (omega arith)))) filled)

broadcast_address6-host_bits :
    (p : ℕ) (a : List ℕ)
    → p / 8 < length a
    → All (λ b. b < 256) a
    → broadcast_address6 p a ≡ some (zip_with bit_or a (host_bits p (length a)))
unfolding broadcast_address6
broadcast_address6-host_bits p a k l =
    let (cs, changed, filled) =
      change-host_bits (p / 8) (p % 8) p a (omega arith) (omega arith) k l in
    let next : p / 8 + 1 ≡ suc (p / 8) = omega arith in
    ap (λ (o : Option (List ℕ)). elim o [ none ↦ none | some bs ↦ some (fill (p / 8 + 1) 255 bs) ])
      changed
    ∙ ap some (ap (λ k. fill k 255 cs) next ∙ filled)

subnet_mask6-host_bits : (p : ℕ) → p < 128 → subnet_mask6 p ≡ some (map complement (host_bits p 16))
unfolding subnet_mask6
subnet_mask6-host_bits p l =
    let (cs, changed, filled) =
      mask6-host_bits (p / 8) (p % 8) p 16 (omega arith) (omega arith) (omega arith) in
    ap
      (λ (o : Option (List ℕ)). elim o [
        | none ↦ none
        | some bs ↦ some (fill_before (p / 8) 255 bs)
      ])
      changed
    ∙ ap some filled

-- For a prefix of 1 to 32 bits of an IPv4 address, and of less than 128 of an IPv6 address, the
-- broadcast address is the address with all bits of the host set, and the subnet mask is the
-- complement of these bits.
pub masks-host_bits :
    (p p6 : ℕ) (a a6 : List ℕ)
    → 1 ≤ p
    → p ≤ 32
    → p6 < 128
    → length a6 ≡ 16
    → All (λ b. b < 256) a6
    → (broadcast_address p a ≡ some (zip_with bit_or a (host_bits p 4)))
      × (subnet_mask p ≡ map (λ b. 255 - b) (host_bits p 4))
      × (broadcast_address6 p6 a6 ≡ some (zip_with bit_or a6 (host_bits p6 16)))
      × (subnet_mask6 p6 ≡ some (map (λ b. 255 - b) (host_bits p6 16)))
unfolding broadcast_address subnet_mask
masks-host_bits p p6 a a6 l h k size small =
    let mask = mask-host_bits p l h in
    (
      rw (ltb-false 32 p h) (ap (λ m. some (zip_with bit_or a m)) mask),
      ap (map (λ b. 255 - b)) mask,
      broadcast_address6-host_bits p6 a6 (omega arith) small
          ∙ ap (λ n. some (zip_with bit_or a6 (host_bits p6 n))) size,
      subnet_mask6-host_bits p6 k,
    )
