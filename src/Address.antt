-- ===== src/Address.antt =====
-- The masks of IPv4Address and IPv6Address in server_frame/address.cc. An address is the list of its
-- bytes in memory, which are in network order: on the little-endian host each mask is swapped
-- before it meets them. The prefix of an IPv4 mask is not 0, for which the shift is undefined.
pub mod HostBits
pub mod Prefix
use server_frame.Prelude.{
  ℕ, zero, suc, ◌+◌, ◌-◌, ◌*◌, ◌/◌, ◌%◌, ◌^◌, List, [], ◌∷◌, ◌++◌, Option, none, some, ltb,
  if◌then◌else◌, bit_and, bit_or, map, replicate,
}
use server_frame.Prelude.Text.{codes, decimal}

-- CreateMask of a type of `width` bits.
unfoldable pub create_mask : ℕ → ℕ → ℕ
create_mask width bits = 2 ^ (width - bits) - 1

-- CountBits: each turn clears the lowest bit.
unfoldable pub count_bits : ℕ → ℕ → ℕ → ℕ
count_bits zero value result = result
count_bits (suc fuel) value result = elim value [
  | zero ↦ result
  | suc v ↦ count_bits fuel (bit_and (suc v) v) (result + 1)
]

-- A number of 32 bits in network order, as ByteswapOnLittleEndian leaves it in memory.
abbrev pub network_order : ℕ → List ℕ
network_order v = (v / 2 ^ 24 % 256) ∷ (v / 2 ^ 16 % 256) ∷ (v / 2 ^ 8 % 256) ∷ (v % 256) ∷ []

abbrev pub little_endian : List ℕ → ℕ
little_endian [] = 0
little_endian (b ∷ bs) = b + 256 * little_endian bs

abbrev pub zip_with : (ℕ → ℕ → ℕ) → List ℕ → List ℕ → List ℕ
zip_with f [] ys = []
zip_with f (x ∷ xs) [] = []
zip_with f (x ∷ xs) (y ∷ ys) = f x y ∷ zip_with f xs ys

-- The constructor from an address and a port, and the port again.
pub record Ipv4Address : Type 0 where
  pub addr : List ℕ
  pub port : List ℕ

unfoldable pub new_ipv4 : ℕ → ℕ → Ipv4Address
new_ipv4 address port = record {
  addr = network_order address;
  port = (port / 256 % 256) ∷ (port % 256) ∷ [];
}

unfoldable pub broadcast_address : ℕ → List ℕ → Option (List ℕ)
broadcast_address prefix_len addr =
    if ltb 32 prefix_len
    then none
    else some (zip_with bit_or addr (network_order (create_mask 32 prefix_len)))

unfoldable pub network_address : ℕ → List ℕ → Option (List ℕ)
network_address prefix_len addr =
    if ltb 32 prefix_len
    then none
    else some (zip_with bit_and addr (network_order (create_mask 32 prefix_len)))

-- `~` of each byte.
unfoldable pub subnet_mask : ℕ → List ℕ
subnet_mask prefix_len = map (λ b. 255 - b) (network_order (create_mask 32 prefix_len))

-- One byte of s6_addr is changed; `none` is a write beyond it.
abbrev pub change : ℕ → (ℕ → ℕ) → List ℕ → Option (List ℕ)
change i f [] = none
change zero f (b ∷ bs) = some (f b ∷ bs)
change (suc i) f (b ∷ bs) = elim (change i f bs) [ none ↦ none | some cs ↦ some (b ∷ cs) ]

-- The loop that sets the bytes from an index on.
abbrev pub fill : ℕ → ℕ → List ℕ → List ℕ
fill i v [] = []
fill zero v (b ∷ bs) = v ∷ fill zero v bs
fill (suc i) v (b ∷ bs) = b ∷ fill i v bs

-- The loop that sets the bytes before an index.
abbrev pub fill_before : ℕ → ℕ → List ℕ → List ℕ
fill_before i v [] = []
fill_before zero v (b ∷ bs) = b ∷ bs
fill_before (suc i) v (b ∷ bs) = v ∷ fill_before i v bs

unfoldable pub broadcast_address6 : ℕ → List ℕ → Option (List ℕ)
broadcast_address6 prefix_len addr =
    elim (change (prefix_len / 8) (λ b. bit_or b (create_mask 8 (prefix_len % 8))) addr) [
      | none ↦ none
      | some bs ↦ some (fill (prefix_len / 8 + 1) 255 bs)
    ]

unfoldable pub network_address6 : ℕ → List ℕ → Option (List ℕ)
network_address6 prefix_len addr =
    elim (change (prefix_len / 8) (λ b. bit_and b (create_mask 8 (prefix_len % 8))) addr) [
      | none ↦ none
      | some bs ↦ some (fill (prefix_len / 8 + 1) 0 bs)
    ]

unfoldable pub subnet_mask6 : ℕ → Option (List ℕ)
subnet_mask6 prefix_len =
    elim (change (prefix_len / 8) (λ b. 255 - create_mask 8 (prefix_len % 8)) (replicate 16 0)) [
      | none ↦ none
      | some bs ↦ some (fill_before (prefix_len / 8) 255 bs)
    ]

-- The prefixes that GetInterfaceAddresses counts: the bits of `s_addr` as the host reads it, of
-- which there are 32 at most, and those of each byte of `s6_addr`.
unfoldable pub prefix_len_of : List ℕ → ℕ
prefix_len_of netmask = count_bits 33 (little_endian netmask) 0

unfoldable pub prefix_len_of6 : List ℕ → ℕ
prefix_len_of6 [] = 0
prefix_len_of6 (b ∷ netmask) = count_bits 9 b 0 + prefix_len_of6 netmask
