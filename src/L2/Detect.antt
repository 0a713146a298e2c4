-- ===== src/L2/Detect.antt =====
-- src/crypto/pqc/pqc_l2_option.c: which packets from a WAN are encrypted UDP packets of a policy.
use ne_encryptor.Prelude.{
  ℕ, ◌+◌, ◌-◌, ◌%◌, ◌^◌, Bool, false, Option, none, some, List, [], ◌∷◌, ltb, ◌==◌, ◌&&◌, ◌||◌, not,
  take,
}
use ne_encryptor.Prelude.Int.{ℤ, pos, pos_part, neg_part, eqb_ℤ}
use ne_encryptor.Eth.{crypto_eth_l2_has_marker, crypto_eth_l2_read_policy_id}
use ne_encryptor.Policy.{CryptoPolicy}
use ne_encryptor.Policy.Inbound.{max_crypto_policies}
use ne_encryptor.L2.{shim_size}
use ne_encryptor.L2.Packet.{enc_start_off, marker_match, tag_size}

abbrev pub action_encrypt_l2 : ℤ
action_encrypt_l2 = pos 2

-- A cast of an `int` to `uint8_t`.
abbrev pub to_u8 : ℤ → ℕ
to_u8 i = (pos_part i + 2 ^ 32 - neg_part i) % 2 ^ 8

unfoldable pub has_policy : List CryptoPolicy → ℤ → ℕ → Bool
has_policy [] action wire_id = false
has_policy (cp ∷ policies) action wire_id =
    (eqb_ℤ cp.action action && to_u8 cp.id == wire_id) || has_policy policies action wire_id

unfoldable pub opt_policy_match : List CryptoPolicy → ℤ → ℕ → Bool
opt_policy_match policies action wire_id =
    has_policy (take max_crypto_policies policies) action wire_id

-- The tests behind the marker, with the place of the marker and the policy of the packet.
abbrev pub is_fragment_at : List CryptoPolicy → List ℕ → ℕ → Option ℕ → Option ℕ → Bool
is_fragment_at policies packet pkt_len none policy = false
is_fragment_at policies packet pkt_len (some tag_off) none = false
is_fragment_at policies packet pkt_len (some tag_off) (some wire_pol) =
    not (ltb pkt_len (tag_off + 4 + shim_size + tag_size))
    && (marker_match packet pkt_len tag_off && opt_policy_match policies action_encrypt_l2 wire_pol)

-- The number and the index that the function writes are 0.
unfoldable pub udp_is_fragment : List CryptoPolicy → List ℕ → ℕ → Bool
udp_is_fragment policies packet pkt_len =
    crypto_eth_l2_has_marker packet pkt_len
    && is_fragment_at policies packet pkt_len (enc_start_off packet pkt_len)
        (crypto_eth_l2_read_policy_id packet pkt_len)
