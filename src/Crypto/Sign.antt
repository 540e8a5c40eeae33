-- ===== src/Crypto/Sign.antt =====
-- TEE_AsymmetricSignDigest and TEE_AsymmetricVerifyDigest of api/tee-internal-api-cryptlib.c.
pub mod Laws
use ta_ref.Prelude.{ℕ, Bool, true, false, not, ◌&&◌, ◌||◌, Option, none, some, ◌==◌, if◌then◌else◌}
use ta_ref.Text.{Str}
use ta_ref.Crypto.{
  Library, Operation, Written, Outcome, returns, refuses, nothing, has_flag, success,
  error_bad_parameters, error_signature_invalid, mode_sign, mode_verify, alg_ecdsa_p256,
  handle_flag_key_set,
}

-- TEE_AsymmetricSignDigest, with *signatureLen before the call, which is not read
unfoldable pub asymmetric_sign_digest : Library → Option Operation → Str → ℕ → Outcome
unfolding has_flag
asymmetric_sign_digest lib none digest signature_len = refuses error_bad_parameters
asymmetric_sign_digest lib (some op) digest signature_len =
    if not (op.mode == mode_sign) || not (op.alg == alg_ecdsa_p256)
    then returns error_bad_parameters op nothing
    else if not (has_flag handle_flag_key_set op.flags)
    then returns error_bad_parameters op nothing
    else returns success op (record nothing {
      dest = some (lib.ed25519_sign digest op.pubkey op.prikey);
      dest_len = some 64;
    })

-- TEE_AsymmetricVerifyDigest
unfoldable pub asymmetric_verify_digest : Library → Option Operation → Str → Str → ℕ → Outcome
unfolding has_flag
asymmetric_verify_digest lib none digest signature signature_len = refuses error_bad_parameters
asymmetric_verify_digest lib (some op) digest signature signature_len =
    if not (op.mode == mode_verify) || (not (op.alg == alg_ecdsa_p256) || not (signature_len == 64))
    then returns error_bad_parameters op nothing
    else if not (has_flag handle_flag_key_set op.flags)
    then returns error_bad_parameters op nothing
    else if lib.ed25519_verify signature digest op.pubkey == 0
    then returns error_signature_invalid op nothing
    else returns success op nothing
