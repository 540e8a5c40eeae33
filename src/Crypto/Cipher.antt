-- ===== src/Crypto/Cipher.antt =====
-- TEE_CipherInit, TEE_CipherUpdate and TEE_CipherDoFinal of api/tee-internal-api-cryptlib.c.
pub mod Laws
use ta_ref.Prelude.{
  ℕ, Bool, true, false, not, ◌&&◌, ◌||◌, Option, none, some, ◌==◌, if◌then◌else◌, length,
}
use ta_ref.Text.{Str}
use ta_ref.Crypto.{
  Library, Operation, Written, Outcome, returns, refuses, panics, nothing, has_flag, success,
  error_bad_parameters, mode_encrypt, mode_decrypt, alg_aes_cbc_nopad, handle_flag_key_set,
}

-- The part of TEE_CipherInit for one direction.
unfoldable pub cipher_setkey : Library → Operation → Bool → Str → Outcome
cipher_setkey lib op encrypts nonce =
    returns 0
      (record op { aectx = lib.aes_setkey (lib.aes_init op.aectx) encrypts op.aekey; aeiv = nonce })
      nothing

-- TEE_CipherInit, with the bytes of the nonce
unfoldable pub cipher_init : Library → Option Operation → Str → Outcome
unfolding cipher_setkey has_flag
cipher_init lib none nonce = panics
cipher_init lib (some op) nonce =
    if not (op.alg == alg_aes_cbc_nopad)
    then panics
    else if not (length nonce == 16)
    then panics
    else if not (has_flag handle_flag_key_set op.flags)
    then panics
    else if op.mode == mode_encrypt
    then cipher_setkey lib op true nonce
    else if op.mode == mode_decrypt
    then cipher_setkey lib op false nonce
    else panics

-- mbedtls_aes_crypt_cbc, whose result is not looked at
unfoldable pub cipher_crypt : Library → Operation → Bool → Str → Outcome
cipher_crypt lib op encrypts src =
    let (iv, out) = lib.aes_crypt_cbc op.aectx encrypts op.aeiv src in
    returns success (record op { aeiv = iv })
      (record nothing { dest = some out; dest_len = some (length src) })

-- TEE_CipherUpdate
unfoldable pub cipher_update : Library → Option Operation → Str → Outcome
unfolding cipher_crypt
cipher_update lib none src = refuses error_bad_parameters
cipher_update lib (some op) src =
    if not (op.alg == alg_aes_cbc_nopad)
    then returns error_bad_parameters op nothing
    else if op.mode == mode_encrypt
    then cipher_crypt lib op true src
    else if op.mode == mode_decrypt
    then cipher_crypt lib op false src
    else returns error_bad_parameters op nothing

-- TEE_CipherDoFinal
unfoldable pub cipher_do_final : Library → Option Operation → Str → Outcome
unfolding cipher_update
cipher_do_final lib op src = cipher_update lib op src
