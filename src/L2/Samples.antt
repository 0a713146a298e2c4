-- ===== src/L2/Samples.antt =====
-- src/crypto/pqc/pqc_l2_option.c: a packet of 34 bytes between two nodes whose keys change.
use ne_encryptor.Prelude.{
  ℕ, ◌≤◌, ◌+◌, ◌-◌, ◌≡◌, refl, true, false, none, some, List, [], ◌∷◌, ◌++◌, arith, replicate,
  length, take, if◌then◌else◌, if_false,
}
use ne_encryptor.Eth.{crypto_eth_inner_et_off, crypto_eth_ipv4_offset, eth_read_et, eth_match_et}
use ne_encryptor.L2.{ShimFields, put, slice, write_shim, kind_full, kind_frag0}
use ne_encryptor.L2.Shim.{IsShim}
use ne_encryptor.L2.Packet.{
  Scrypt, CryptoCtx, key_is_all_zero, same_key, sess_load, is_duplicate, meta_len, do_encrypt_udp,
  do_decrypt_udp, decrypt_payload_resilient, encrypt_payload,
}
use ne_encryptor.L2.Seal.{plain_of, sealed}
use ne_encryptor.L2.Rotation.{OpensWith, decrypt_payload_resilient_opens}
use ne_encryptor.L2.Split.{SplitPlan, plan_at, plan_split, encrypt_fragment0_inplace}
use ne_encryptor.L2.Fit.{IsGoodPlan, plan_split-IsGoodPlan, encrypt_fragment0_inplace_fits}
use ne_encryptor.L2.Plain.{do_encrypt}
use ne_encryptor.L2.Veil.{veil_header, do_encrypt_lays}
use ne_encryptor.L2.RoundTrip.{IsPlain, IsSealed, do_decrypt_udp-do_encrypt_udp}

abbrev old_key : List ℕ
old_key = replicate 32 1

abbrev new_key : List ℕ
new_key = replicate 32 2

-- A library that only knows the old key, and writes a tag of 16 bytes behind the plain ones.
abbrev one_key : Scrypt
one_key = record {
  seal_gcm = λ key nonce bytes. some (bytes ++ replicate 16 9);
  open_gcm = λ key nonce bytes.
      if same_key key old_key then some (take (length bytes - 16) bytes) else none;
}

abbrev sender : CryptoCtx
sender = record {
  initialized = true;
  wire_id = 4;
  current = some old_key;
  next = none;
  prev = none;
}

-- The receiver has moved on to the new key.
abbrev receiver : CryptoCtx
receiver = record {
  initialized = true;
  wire_id = 4;
  current = some new_key;
  next = none;
  prev = some old_key;
}

abbrev sent : ShimFields
sent = record { kind = 2; epoch = 5; seq = 6; datagram_id = 7 }

abbrev ip_bytes : List ℕ
ip_bytes = 0x45 ∷ replicate 19 3

abbrev frame : List ℕ
frame = replicate 12 0xaa ++ (0x08 ∷ 0x00 ∷ (ip_bytes ++ replicate 2014 0))

abbrev nonce : List ℕ
nonce = replicate 12 8

sent-IsShim : IsShim sent
sent-IsShim = record {
  kind = omega arith;
  epoch = omega arith;
  seq = omega arith;
  datagram_id = omega arith;
}

frame_type : crypto_eth_inner_et_off frame 34 ≡ some 12
unfolding crypto_eth_inner_et_off eth_read_et eth_match_et
frame_type = refl

frame_ip : crypto_eth_ipv4_offset frame 34 ≡ some 14
unfolding crypto_eth_ipv4_offset crypto_eth_inner_et_off eth_read_et eth_match_et
frame_ip = refl

frame-IsPlain : IsPlain frame 34 12 ip_bytes
frame-IsPlain = record {
  type_at = frame_type;
  ip_at = frame_ip;
  bytes = refl;
  payload_bytes = refl;
  size = refl;
  fits = omega arith;
  frame = omega arith;
}

abbrev cipher : List ℕ
cipher = plain_of sent ip_bytes ++ replicate 16 9

old_nonzero : key_is_all_zero old_key ≡ false
unfolding key_is_all_zero
old_nonzero = refl

old_opens : one_key.open_gcm old_key nonce cipher ≡ some (plain_of sent ip_bytes)
unfolding same_key write_shim
old_opens = refl

cipher-OpensWith : OpensWith one_key old_key nonce cipher (plain_of sent ip_bytes)
cipher-OpensWith = record {
  nonzero = old_nonzero;
  opens = old_opens;
  others = λ k h. if_false (same_key k old_key) _ _ h;
}

cipher_size : length cipher ≡ length (plain_of sent ip_bytes) + 16
unfolding write_shim
cipher_size = refl

plain_size : length (plain_of sent ip_bytes) ≡ 33
unfolding write_shim
plain_size = refl

cipher-IsSealed : IsSealed one_key old_key nonce (plain_of sent ip_bytes) cipher
cipher-IsSealed = record {
  nonce_len = refl;
  seals = refl;
  tagged = cipher_size;
  opens = cipher-OpensWith;
}

sender_key : sess_load sender ≡ some old_key
unfolding sess_load key_is_all_zero
sender_key = refl

receiver_key : sess_load receiver ≡ some new_key
unfolding sess_load key_is_all_zero
receiver_key = refl

receiver_has_old :
    is_duplicate (receiver.current ∷ receiver.next ∷ receiver.prev ∷ []) old_key ≡ true
unfolding is_duplicate same_key
receiver_has_old = refl

decrypt_payload_resilient_opens_example :
    decrypt_payload_resilient one_key receiver nonce cipher ≡ some (plain_of sent ip_bytes)
decrypt_payload_resilient_opens_example =
    decrypt_payload_resilient_opens one_key receiver old_key nonce cipher (plain_of sent ip_bytes)
      (omega (arith, cipher_size, plain_size)) (omega (arith, cipher_size, plain_size))
      cipher-OpensWith receiver_has_old

do_decrypt_udp-do_encrypt_udp_example :
    (wire : List ℕ) × ((do_encrypt_udp one_key 1 sender (some nonce) (some sent) frame 34
        ≡ some (wire, 34 + meta_len))
      × ((b : List ℕ) × ((do_decrypt_udp one_key receiver wire (34 + meta_len)
              ≡ some (b, 34, record sent { kind = kind_full }))
            × (take 34 b ≡ take 34 frame))))
do_decrypt_udp-do_encrypt_udp_example =
    do_decrypt_udp-do_encrypt_udp one_key 1 sender receiver old_key new_key nonce sent frame
      ip_bytes cipher 34 12 frame-IsPlain sent-IsShim sender_key receiver_key receiver_has_old
      cipher-IsSealed

do_encrypt_lays_example :
    do_encrypt one_key 1 sender (some nonce) frame 34
    ≡ some (put frame 12 (veil_header 4 1 nonce ++ (ip_bytes ++ replicate 16 9)), 12 + 16 + 36)
do_encrypt_lays_example =
    do_encrypt_lays one_key 1 sender old_key nonce frame (ip_bytes ++ replicate 16 9) 34 12
      frame_type frame_ip (omega arith) (omega arith) refl sender_key refl (omega arith)

-- A UDP packet of 62 bytes, which an MTU of 100 lets through in two fragments only.
abbrev udp_frame : List ℕ
udp_frame =
    replicate 12 0xaa
    ++ (0x08 ∷ 0x00 ∷ 0x45 ∷ (replicate 8 0 ++ (17 ∷ (replicate 38 5 ++ replicate 1986 0))))

abbrev udp_plan : SplitPlan
udp_plan = record { l3_off = 14; frag0_plain_len = 39; half2 = 9 }

udp_planned : plan_split 100 udp_frame 62 ≡ some udp_plan
unfolding plan_split plan_at crypto_eth_ipv4_offset crypto_eth_inner_et_off eth_read_et eth_match_et
udp_planned = refl

plan_split-IsGoodPlan_example : IsGoodPlan 100 udp_frame 62 udp_plan
plan_split-IsGoodPlan_example = plan_split-IsGoodPlan 100 udp_frame 62 udp_plan udp_planned

abbrev first_cipher : List ℕ
first_cipher =
    write_shim (record sent { kind = kind_frag0 }) ++ slice 39 14 udp_frame ++ replicate 16 9

first_seals :
    encrypt_payload one_key old_key nonce
      (write_shim (record sent { kind = kind_frag0 }) ++ slice 39 14 udp_frame)
    ≡ some first_cipher
unfolding encrypt_payload write_shim
first_seals = refl

first_size : length first_cipher ≡ 13 + 39 + 16
unfolding write_shim
first_size = refl

encrypt_fragment0_inplace_fits_example :
    (encrypt_fragment0_inplace one_key 1 sender (some nonce) sent udp_frame 39 2048 12 14
      ≡ some (sealed udp_frame 12 4 1 nonce first_cipher, 12 + 20 + length first_cipher))
    × (12 + 20 + length first_cipher ≤ 100)
encrypt_fragment0_inplace_fits_example =
    encrypt_fragment0_inplace_fits one_key 1 sender old_key nonce sent udp_frame first_cipher 62 12
      100 udp_plan udp_planned refl (omega arith) (omega arith) refl sender_key first_seals
      first_size
