-- ===== src/Crypto/Digest.antt =====
-- TEE_DigestUpdate and TEE_DigestDoFinal of api/tee-internal-api-cryptlib.c.
pub mod Laws
use ta_ref.Prelude.{
  ℕ, zero, suc, Bool, true, false, not, ◌&&◌, ◌||◌, List, [], ◌∷◌, Option, none, some, ◌==◌, ltb,
  if◌then◌else◌, length,
}
use ta_ref.Text.{Str}
use ta_ref.Crypto.{
  Library, Operation, Buffer, null, bytes, Written, Outcome, returns, refuses, panics, nothing,
  success, error_bad_parameters, error_short_buffer, mode_digest, alg_sha256,
}

-- TEE_DigestUpdate
unfoldable pub digest_update : Library → Option Operation → Str → Outcome
digest_update lib none chunk = panics
digest_update lib (some op) chunk =
    if not (op.mode == mode_digest) || not (op.alg == alg_sha256)
    then panics
    else returns 0 (record op { ctx = lib.sha3_update op.ctx chunk }) nothing

-- The end of TEE_DigestDoFinal.
unfoldable pub digest_finish : Library → Operation → Str → Outcome
digest_finish lib op ctx =
    let (hash, ctx') = lib.sha3_final ctx in
    returns success (record op { ctx = ctx' })
      (record nothing { dest = some hash; dest_len = some 32 })

unfoldable pub digest_chunk : Library → Operation → Buffer → Outcome
unfolding digest_finish
digest_chunk lib op (null zero) = digest_finish lib op op.ctx
digest_chunk lib op (null (suc n)) = returns error_bad_parameters op nothing
digest_chunk lib op (bytes []) = digest_finish lib op op.ctx
digest_chunk lib op (bytes (c ∷ s)) = digest_finish lib op (lib.sha3_update op.ctx (c ∷ s))

-- chunkLen > 0 && !chunk
unfoldable pub no_chunk : Buffer → Bool
no_chunk (null zero) = false
no_chunk (null (suc n)) = true
no_chunk (bytes s) = false

-- TEE_DigestDoFinal, where hash is NULL or not and hashLen points to a number
unfoldable pub digest_do_final : Library → Option Operation → Buffer → Bool → ℕ → Outcome
unfolding digest_chunk no_chunk
digest_do_final lib none chunk hash hash_len = refuses error_bad_parameters
digest_do_final lib (some op) chunk hash hash_len =
    if not (op.mode == mode_digest) || not (op.alg == alg_sha256)
    then returns error_bad_parameters op nothing
    else if no_chunk chunk || not hash
    then returns error_bad_parameters op nothing
    else if ltb hash_len 32
    then returns error_short_buffer op nothing
    else digest_chunk lib op chunk
