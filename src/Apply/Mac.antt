-- ===== src/Apply/Mac.antt =====
-- mvirt-cplane/src/state.rs: `generate_mac_from_id`.
use mvirt.Prelude.{
  ℕ, ◌+◌, ◌*◌, ◌/◌, ◌%◌, ◌^◌, String, ◌<>◌, List, [], ◌∷◌, as_bytes, as_u32, hex_byte,
}

-- The loop over the bytes with their index, in wrapping arithmetic on `u64`.
unfoldable pub hash_bytes : ℕ → ℕ → List ℕ → ℕ
hash_bytes i hash [] = hash
hash_bytes i hash (b ∷ rest) =
    hash_bytes (i + 1) ((hash + b * (31 ^ as_u32 i % 2 ^ 64) % 2 ^ 64) % 2 ^ 64) rest

unfoldable pub generate_mac_from_id : String → String
unfolding hash_bytes
generate_mac_from_id id =
    let hash = hash_bytes 0 0 (as_bytes id) in
    "52:54:00:"
    <> hex_byte (hash / 2 ^ 16 % 256)
    <> ":"
    <> hex_byte (hash / 2 ^ 8 % 256)
    <> ":"
    <> hex_byte (hash % 256)
