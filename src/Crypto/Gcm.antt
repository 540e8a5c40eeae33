-- ===== src/Crypto/Gcm.antt =====
-- TEE_AEInit, TEE_AEUpdateAAD, TEE_AEUpdate, TEE_AEEncryptFinal and TEE_AEDecryptFinal of
-- api/tee-internal-api-cryptlib.c.
pub mod States
pub mod Sequences
pub mod Forgery
pub mod RoundTrip
use ta_ref.Prelude.{
  ℕ, zero, suc, Bool, true, false, not, ◌&&◌, ◌||◌, List, [], ◌∷◌, Option, none, some, ◌==◌, ltb,
  if◌then◌else◌, length, take,
}
use ta_ref.Text.{Str, eq_str}
use ta_ref.Crypto.{
  Library, Operation, Buffer, null, bytes, Written, Outcome, returns, refuses, panics, and_then,
  nothing, has_flag, success, error_bad_parameters, error_not_supported, error_mac_invalid,
  mode_encrypt, alg_aes_gcm, handle_flag_key_set,
}

abbrev pub gcm_st_init : ℕ
gcm_st_init = 1

abbrev pub gcm_st_aad : ℕ
gcm_st_aad = 2

abbrev pub gcm_st_active : ℕ
gcm_st_active = 3

abbrev pub gcm_st_final : ℕ
gcm_st_final = 4

-- The end of TEE_AEInit.
unfoldable pub ae_setkey : Library → Operation → Str → Outcome
ae_setkey lib op nonce =
    let (rv, ctx) = lib.gcm_setkey (lib.gcm_init op.aegcmctx) op.aekey in
    if not (rv == 0)
    then panics
    else returns success
        (record op { aegcmctx = ctx; aeiv = take 16 nonce; aegcm_state = gcm_st_init }) nothing

unfoldable pub ae_nonce : Library → Operation → Buffer → Outcome
unfolding ae_setkey has_flag
ae_nonce lib op (null n) = returns error_bad_parameters op nothing
ae_nonce lib op (bytes nonce) =
    if not (has_flag handle_flag_key_set op.flags) || not (op.aegcm_state == 0)
    then returns error_bad_parameters op nothing
    else ae_setkey lib op nonce

unfoldable pub buffer_length : Buffer → ℕ
buffer_length (null n) = n
buffer_length (bytes s) = length s

-- TEE_AEInit; payloadLen is not read
unfoldable pub ae_init : Library → Option Operation → Buffer → ℕ → ℕ → Outcome
unfolding ae_nonce buffer_length
ae_init lib none nonce tag_len aad_len = refuses error_bad_parameters
ae_init lib (some op) nonce tag_len aad_len =
    if not (op.alg == alg_aes_gcm)
    then returns error_bad_parameters op nothing
    else if not (buffer_length nonce == 16)
    then returns error_not_supported op nothing
    else if ltb 16 aad_len
    then returns error_not_supported op nothing
    else if not (tag_len == 128)
    then returns error_not_supported op nothing
    else ae_nonce lib op nonce

-- The call of mbedtls_gcm_starts.
unfoldable pub ae_starts : Library → Operation → Str → Outcome
ae_starts lib op aad =
    let (rv, ctx) = lib.gcm_starts op.aegcmctx (op.mode == mode_encrypt) op.aeiv aad in
    if not (rv == 0)
    then panics
    else returns 0 (record op { aegcmctx = ctx; aegcm_state = gcm_st_aad }) nothing

-- The bytes of the data, or none where TEE_AEUpdateAAD panics on it.
unfoldable pub aad_bytes : Buffer → Option Str
aad_bytes (null zero) = some []
aad_bytes (null (suc n)) = none
aad_bytes (bytes s) = if ltb 16 (length s) then none else some s

unfoldable pub ae_aad : Library → Operation → Option Str → Outcome
unfolding ae_starts
ae_aad lib op none = panics
ae_aad lib op (some aad) = if ltb op.aegcm_state gcm_st_init then panics else ae_starts lib op aad

-- TEE_AEUpdateAAD
unfoldable pub ae_update_aad : Library → Option Operation → Buffer → Outcome
unfolding ae_aad aad_bytes
ae_update_aad lib none aad = panics
ae_update_aad lib (some op) aad = ae_aad lib op (aad_bytes aad)

-- The call of TEE_AEUpdateAAD with no data, in the state GCM_ST_INIT, before the rest of a function.
unfoldable pub with_aad : Library → Operation → (Operation → Outcome) → Outcome
unfolding ae_update_aad and_then
with_aad lib op rest =
    if op.aegcm_state == gcm_st_init
    then and_then (ae_update_aad lib (some op) (null 0)) rest
    else rest op

-- The end of TEE_AEUpdate.
unfoldable pub ae_update_data : Library → Str → Operation → Outcome
ae_update_data lib src op =
    if ltb op.aegcm_state gcm_st_aad
    then returns error_bad_parameters op nothing
    else let (rv, ctx, out) = lib.gcm_update op.aegcmctx src in
      if not (rv == 0)
      then panics
      else returns success (record op { aegcmctx = ctx; aegcm_state = gcm_st_active })
          (record nothing { dest = some out; dest_len = some (length src) })

-- TEE_AEUpdate, where destData and destLen are NULL or not
unfoldable pub ae_update : Library → Option Operation → Buffer → Bool → Bool → Outcome
unfolding with_aad ae_update_data
ae_update lib none src dest dest_len = refuses error_bad_parameters
ae_update lib (some op) (null n) dest dest_len = returns error_bad_parameters op nothing
ae_update lib (some op) (bytes src) dest dest_len =
    if not (op.alg == alg_aes_gcm)
    then returns error_bad_parameters op nothing
    else if not dest || not dest_len
    then returns error_bad_parameters op nothing
    else with_aad lib op (ae_update_data lib src)

-- mbedtls_gcm_update and mbedtls_gcm_finish, one after another: the context, the output and the tag, or
-- none where one of them fails.
unfoldable pub gcm_last : Library → Str → Str → Option (Str × Str × Str)
gcm_last lib ctx src =
    let (rv, ctx1, out) = lib.gcm_update ctx src in
    let (rv', ctx2, tag) = lib.gcm_finish ctx1 in
    if not (rv == 0) then none else if not (rv' == 0) then none else some (ctx2, out, tag)

unfoldable pub encrypt_ends : Operation → Str → Option (Str × Str × Str) → Outcome
encrypt_ends op src none = panics
encrypt_ends op src (some (ctx, out, tag)) =
    returns success (record op { aegcmctx = ctx; aegcm_state = gcm_st_final })
      (record {
        dest = some out;
        dest_len = some (length src);
        tag = some (take 16 tag);
        tag_len = some 16;
      })

-- The end of TEE_AEEncryptFinal.
unfoldable pub ae_encrypt_data : Library → Str → Operation → Outcome
unfolding gcm_last encrypt_ends
ae_encrypt_data lib src op =
    if ltb op.aegcm_state gcm_st_aad
    then returns error_bad_parameters op nothing
    else encrypt_ends op src (gcm_last lib op.aegcmctx src)

-- tagLen == NULL || *tagLen != 16
unfoldable pub bad_tag_len : Option ℕ → Bool
bad_tag_len none = true
bad_tag_len (some n) = not (n == 16)

-- TEE_AEEncryptFinal, where destData, destLen and tag are NULL or not and tagLen may point to a number
unfoldable pub ae_encrypt_final :
    Library → Option Operation → Buffer → Bool → Bool → Bool → Option ℕ → Outcome
unfolding with_aad ae_encrypt_data bad_tag_len
ae_encrypt_final lib none src dest dest_len tag tag_len = refuses error_bad_parameters
ae_encrypt_final lib (some op) (null n) dest dest_len tag tag_len =
    returns error_bad_parameters op nothing
ae_encrypt_final lib (some op) (bytes src) dest dest_len tag tag_len =
    if not (op.alg == alg_aes_gcm)
    then returns error_bad_parameters op nothing
    else if not dest || not dest_len
    then returns error_bad_parameters op nothing
    else if bad_tag_len tag_len || not tag
    then returns error_bad_parameters op nothing
    else with_aad lib op (ae_encrypt_data lib src)

unfoldable pub decrypt_ends : Operation → Str → Str → Option (Str × Str × Str) → Outcome
unfolding eq_str
decrypt_ends op src tag none = panics
decrypt_ends op src tag (some (ctx, out, check_tag)) =
    if not (eq_str (take 16 tag) (take 16 check_tag))
    then returns error_mac_invalid (record op { aegcmctx = ctx })
        (record nothing { dest = some out })
    else returns success (record op { aegcmctx = ctx; aegcm_state = gcm_st_final })
        (record nothing { dest = some out; dest_len = some (length src) })

-- The end of TEE_AEDecryptFinal.
unfoldable pub ae_decrypt_data : Library → Str → Str → Operation → Outcome
unfolding gcm_last decrypt_ends
ae_decrypt_data lib src tag op =
    if ltb op.aegcm_state gcm_st_aad
    then returns error_bad_parameters op nothing
    else decrypt_ends op src tag (gcm_last lib op.aegcmctx src)

-- TEE_AEDecryptFinal, where destData and destLen are NULL or not; the tag may be NULL
unfoldable pub ae_decrypt_final :
    Library → Option Operation → Buffer → Bool → Bool → Option Str → ℕ → Outcome
unfolding with_aad ae_decrypt_data
ae_decrypt_final lib none src dest dest_len tag tag_len = refuses error_bad_parameters
ae_decrypt_final lib (some op) (null n) dest dest_len tag tag_len =
    returns error_bad_parameters op nothing
ae_decrypt_final lib (some op) (bytes src) dest dest_len none tag_len =
    returns error_bad_parameters op nothing
ae_decrypt_final lib (some op) (bytes src) dest dest_len (some tag) tag_len =
    if not (op.alg == alg_aes_gcm)
    then returns error_bad_parameters op nothing
    else if not dest || not dest_len
    then returns error_bad_parameters op nothing
    else if not (tag_len == 16)
    then returns error_bad_parameters op nothing
    else with_aad lib op (ae_decrypt_data lib src tag)
