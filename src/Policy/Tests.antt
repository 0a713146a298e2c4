-- ===== src/Policy/Tests.antt =====
-- src/db/config.c: two policies on the web traffic of a network, the second with the smaller
-- priority number.
use ne_encryptor.Prelude.{zero, suc, ◌≡◌, refl, inl, inr, true, false, some, [], ◌∷◌, arith}
use mathlib.Core.Path.{subst}
use mathlib.Core.Option.{some-injective, none-ne-some}
use ne_encryptor.Prelude.Int.{pos, negsuc}
use ne_encryptor.Policy.{
  CryptoPolicy, Tuple, Profile, AppConfig, policy_at, proto_ok, port_ok, cidr_match_with_negate,
  crypto_policy_match_packet, goes_first, consider, select_loop, profile_at, select_crypto_policy,
}
use ne_encryptor.Policy.Inbound.{refresh_policy_in_any}
use ne_encryptor.Policy.Mirror.{reverse, IsParsed}
use ne_encryptor.Policy.Gate.{AllParsed, gate_open, is_some, gate_open-reverse}
use ne_encryptor.Policy.Select.{
  Beats, IsApplicable, select_crypto_policy-IsApplicable, select_crypto_policy-Beats,
}

-- From 10.0.0.0/8 to any address, at TCP or UDP ports 80 to 443.
abbrev web : CryptoPolicy
web = record {
  id = pos 1;
  db_id = pos 1;
  priority = pos 20;
  action = pos 1;
  protocol = 254;
  src_port_from = negsuc 0;
  src_port_to = negsuc 0;
  dst_port_from = pos 80;
  dst_port_to = pos 443;
  src_any = false;
  dst_any = true;
  src_negate = false;
  dst_negate = false;
  src_net = 10;
  src_mask = 255;
  dst_net = 0;
  dst_mask = 0;
}

abbrev urgent : CryptoPolicy
urgent = record web { id = pos 2; priority = pos 10 }

abbrev profile : Profile
profile = record { policy_indices = pos 0 ∷ pos 7 ∷ pos 1 ∷ []; policy_in_any = false }

abbrev config : AppConfig
config = record { profiles = profile ∷ []; policies = web ∷ urgent ∷ [] }

abbrev packet : Tuple
packet = record { src_ip = 266; dst_ip = 5; src_port = 5000; dst_port = 80; protocol = 6 }

web-IsParsed : IsParsed web
web-IsParsed = record { src_range = inl refl; dst_range = inr (omega arith, omega arith) }

urgent-IsParsed : IsParsed urgent
urgent-IsParsed = record { src_range = inl refl; dst_range = inr (omega arith, omega arith) }

all-AllParsed : AllParsed config.policies
all-AllParsed zero cp e = subst IsParsed (some-injective web cp e) web-IsParsed
all-AllParsed (suc zero) cp e = subst IsParsed (some-injective urgent cp e) urgent-IsParsed
all-AllParsed (suc (suc i)) cp e = absurd (none-ne-some cp e)

web_applies : IsApplicable packet config.policies profile.policy_indices web
unfolding policy_at crypto_policy_match_packet proto_ok cidr_match_with_negate port_ok
web_applies = (0, pos 0, refl, refl, refl)

select_run : select_crypto_policy config (pos 0) packet ≡ some urgent
unfolding select_crypto_policy profile_at select_loop consider policy_at crypto_policy_match_packet
    proto_ok cidr_match_with_negate port_ok goes_first
select_run = refl

select_crypto_policy-IsApplicable_example :
    IsApplicable packet config.policies profile.policy_indices urgent
unfolding profile_at
select_crypto_policy-IsApplicable_example =
    select_crypto_policy-IsApplicable config (pos 0) profile packet urgent refl select_run

select_crypto_policy-Beats_example : Beats (select_crypto_policy config (pos 0) packet) web
unfolding profile_at
select_crypto_policy-Beats_example =
    select_crypto_policy-Beats config (pos 0) profile packet web refl web_applies

gate_open-reverse_example :
    gate_open ((refresh_policy_in_any config).0) ((refresh_policy_in_any config).1) (reverse packet)
    ≡ is_some (select_crypto_policy config (pos 0) packet)
gate_open-reverse_example =
    gate_open-reverse profile [] config.policies packet all-AllParsed
      (record { src_in = omega arith; dst_in = omega arith }) (omega arith)
