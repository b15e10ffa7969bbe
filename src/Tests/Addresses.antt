-- ===== src/Tests/Addresses.antt =====
-- Runs of the masks.
use server_frame.Prelude.{ℕ, ◌-◌, ◌≡◌, refl, List, [], ◌∷◌, some, map, replicate, bit_or, arith}
use server_frame.Address.{
  broadcast_address, network_address, subnet_mask, broadcast_address6, subnet_mask6, zip_with,
  prefix_len_of, prefix_len_of6, create_mask,
}
use server_frame.Address.HostBits.{host_bits, masks-host_bits}
use server_frame.Address.Prefix.{prefix_len_of-subnet_mask}

abbrev home : List ℕ
home = 192 ∷ 168 ∷ 1 ∷ 10 ∷ []

abbrev home6 : List ℕ
home6 = 254 ∷ 128 ∷ replicate 14 7

masks-host_bits_example :
    (broadcast_address 24 home ≡ some (zip_with bit_or home (host_bits 24 4)))
    × (subnet_mask 24 ≡ map (λ b. 255 - b) (host_bits 24 4))
    × (broadcast_address6 60 home6 ≡ some (zip_with bit_or home6 (host_bits 60 16)))
    × (subnet_mask6 60 ≡ some (map (λ b. 255 - b) (host_bits 60 16)))
masks-host_bits_example =
    masks-host_bits 24 60 home home6 (omega arith) (omega arith) (omega arith) refl (omega arith)

broadcast : broadcast_address 24 home ≡ some (192 ∷ 168 ∷ 1 ∷ 255 ∷ [])
unfolding broadcast_address create_mask
broadcast = refl

-- The host part is what is left.
network : network_address 24 home ≡ some (0 ∷ 0 ∷ 0 ∷ 10 ∷ [])
unfolding network_address create_mask
network = refl

abbrev mask6 : List ℕ
mask6 = 255 ∷ 255 ∷ 255 ∷ 240 ∷ replicate 12 0

made : subnet_mask6 28 ≡ some mask6
unfolding subnet_mask6 create_mask
made = refl

prefix_len_of-subnet_mask_example :
    (prefix_len_of (subnet_mask 24) ≡ 24) × (prefix_len_of6 mask6 ≡ 28)
prefix_len_of-subnet_mask_example =
    prefix_len_of-subnet_mask 24 28 mask6 (omega arith) (omega arith) (omega arith) made
