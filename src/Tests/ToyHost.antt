-- ===== src/Tests/ToyHost.antt =====
-- Concrete functions in place of what the aggregation service and its participants take from outside.
use did_btcr2_js.Prelude.{[], some, true, ◌++◌, ◌∷◌, none}
use did_btcr2_js.Tests.Toy.{sum_hash, bytes_equal}
use did_btcr2_js.Aggregation.Recovery.{Taproot, bytes, opcode, taproot_leaf_version}
use did_btcr2_js.Aggregation.Strategy.{Canonical, built_in_strategies}
use did_btcr2_js.Common.Number.{natural}
use did_btcr2_js.Aggregation.Service.{CohortConfig, Host}
use did_btcr2_js.Aggregation.Session.{Musig}
use did_btcr2_js.Smt.Hash.{Bytes}
use did_btcr2_js.Aggregation.FallbackSpend.{Spender}
use did_btcr2_js.Aggregation.Conditions.{CohortConditions}
use mathlib.Core.List.{flatten}
use did_btcr2_js.Aggregation.Participant.{Client}

-- Texts of the toy are never decoded: the CAS path hashes with `canonical_hash` alone.
abbrev pub canonical : Canonical
canonical = record {
  crypto = record {
    sha256 = sum_hash;
    concat_bytes = flatten;
    equal_bytes = bytes_equal;
    base64url_encode = λ b. "text";
    base64url_decode = λ t. some [];
  };
  canonical_hash = λ u. "hash";
  canonical_bytes = λ u. 1 ∷ [];
  canonical_length = λ u. 10;
  hash_announcement = λ a. 9 ∷ [];
  nonce_of = λ id. 3 ∷ [];
}

abbrev toy_leaf : Bytes
toy_leaf = 51 ∷ []

abbrev taproot : Taproot
taproot = record {
  sort_keys = λ keys. keys;
  key_aggregate = λ keys. some (5 ∷ []);
  multisig_script = λ k keys. some toy_leaf;
  encode_script = λ items. 52 ∷ [];
  p2tr = λ key leaves network. some (record {
    address = some "address";
    script = 8 ∷ [];
    tap_merkle_root = 6 ∷ [];
    tap_leaf_script = (4 ∷ [], toy_leaf ++ taproot_leaf_version ∷ []) ∷ [];
  });
  tagged_hash = λ tag b. sum_hash b;
  concat_bytes = flatten;
}

abbrev pub spender : Spender
spender = record {
  taproot = taproot;
  schnorr_verify = λ signature message key. some true;
  preimage = λ tx i script value leaf version. sum_hash leaf;
  finalize = λ tx i entry witness. some (1 ∷ 2 ∷ []);
}

abbrev pub musig : Musig
musig = record {
  nonce_aggregate = λ nonces. some [];
  opens = λ ctx. true;
  partial_sig_verify = λ ctx p nonces i. some true;
  partial_sig_agg = λ ctx ps. some (7 ∷ []);
  sign = λ ctx secret key. some (8 ∷ []);
  nonce_gen = λ public secret keys. some ([], []);
  preimage_witness = λ tx scripts values. [];
}

abbrev pub host : Host
host = record {
  did = "did:s";
  public_key = 2 ∷ [];
  max_update_size_bytes = 100;
  canonical = canonical;
  spender = spender;
  musig = musig;
  strategies = built_in_strategies canonical;
  hex_to_bytes = λ text. 1 ∷ [];
  bytes_to_hex = λ b. "01";
  decimal = λ n. "1";
  tx_hex = λ tx. "00";
  with_key_path_witness = λ tx signature. tx;
  verify_proof = λ method did key update. true;
}

abbrev pub client : Client
client = record {
  did = "did:a";
  public_key = 1 ∷ [];
  secret_key = 1 ∷ [];
  genesis_document = none;
  canonical = canonical;
  spender = spender;
  musig = musig;
  strategies = built_in_strategies canonical;
  hex_to_bytes = λ text. some (1 ∷ []);
  bytes_to_hex = λ b. "01";
  parse_transaction = λ b. some b;
  output_scripts = λ tx. none ∷ some (106 ∷ []) ∷ [];
  decode_script = λ script. some (opcode "RETURN" ∷ bytes (1 ∷ []) ∷ []);
  parse_big_int = λ text. some 1;
  schnorr_sign = λ message key. message;
}

-- Two participants at least, a recovery key of 64 digits.
abbrev pub conditions : CohortConditions
conditions = record {
  beacon_type = "CASBeacon";
  min_participants = natural 2;
  max_participants = some (natural 2);
  min_dids_per_participant = none;
  max_dids_per_participant = none;
  cost_of_enrollment = none;
  cost_per_announcement = none;
  min_seconds_between_announcements = none;
  max_seconds_between_announcements = none;
  pending_update_trigger = none;
  funding_model = some "operator-funded";
  recovery_key = "0123456789abcdef0123456789abcdef0123456789ABCDEF0123456789ABCDEF";
  recovery_sequence = natural 144;
  fallback_threshold = some (natural 1);
}

abbrev pub config : CohortConfig
config = record { conditions = conditions; network = "regtest" }
