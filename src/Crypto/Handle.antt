-- ===== src/Crypto/Handle.antt =====
-- TEE_AllocateOperation, TEE_FreeOperation and TEE_SetOperationKey of api/tee-internal-api-cryptlib.c.
pub mod Laws
use ta_ref.Prelude.{
  ℕ, Bool, true, false, not, ◌&&◌, ◌||◌, Option, none, some, ◌==◌, if◌then◌else◌, take,
}
use ta_ref.Crypto.{
  Library, Operation, Object, Outcome, returns, refuses, nothing, zeros, set_flag, success,
  error_bad_parameters, error_not_supported, error_out_of_memory, mode_encrypt, mode_decrypt,
  mode_sign, mode_verify, mode_digest, alg_aes_cbc_nopad, alg_aes_gcm, alg_sha256, alg_ecdsa_p256,
  type_aes, type_ecdsa_keypair, type_ecdh_keypair, handle_flag_key_set,
}

-- memset(handle, 0, sizeof(*handle))
unfoldable pub zeroed : Library → Operation
zeroed lib = record {
  mode = 0;
  flags = 0;
  alg = 0;
  ctx = zeros lib.sha3_ctx_size;
  aectx = zeros lib.aes_ctx_size;
  aegcmctx = zeros lib.gcm_ctx_size;
  aegcm_state = 0;
  aeiv = zeros 16;
  aekey = zeros 32;
  pubkey = zeros 32;
  prikey = zeros 64;
}

-- The cases for AES and for signatures, with what malloc gives.
unfoldable pub allocate_zeroed : Library → ℕ → ℕ → Option Operation → ℕ × Option Operation
allocate_zeroed lib algorithm mode none = (error_out_of_memory, none)
allocate_zeroed lib algorithm mode (some memory) =
    (success, some (record (zeroed lib) { mode = mode; alg = algorithm }))

-- The case for digests, in which the memory is not cleared.
unfoldable pub allocate_digest : Library → ℕ → ℕ → Option Operation → ℕ × Option Operation
allocate_digest lib algorithm mode none = (error_out_of_memory, none)
allocate_digest lib algorithm mode (some memory) = (
  success,
  some (record memory { mode = mode; alg = algorithm; ctx = lib.sha3_init memory.ctx 32 }),
)

-- TEE_AllocateOperation, with what malloc gives: the result, and the handle where one is written.
-- maxKeySize is not read.
unfoldable pub allocate_operation : Library → Option Operation → ℕ → ℕ → ℕ → ℕ × Option Operation
unfolding allocate_zeroed allocate_digest
allocate_operation lib malloc algorithm mode max_key_size =
    if mode == mode_digest
    then if not (algorithm == alg_sha256)
      then (error_not_supported, none)
      else allocate_digest lib algorithm mode malloc
    else if mode == mode_encrypt || mode == mode_decrypt
    then if not (algorithm == alg_aes_cbc_nopad) && not (algorithm == alg_aes_gcm)
      then (error_not_supported, none)
      else allocate_zeroed lib algorithm mode malloc
    else if mode == mode_sign || mode == mode_verify
    then if not (algorithm == alg_ecdsa_p256)
      then (error_not_supported, none)
      else allocate_zeroed lib algorithm mode malloc
    else (error_not_supported, none)

-- What TEE_FreeOperation calls before free.
pub data Freed : Type 0 where
  aes_freed : Freed
  gcm_freed : Freed
  only_freed : Freed
  not_freed : Freed

-- TEE_FreeOperation
unfoldable pub free_operation : Option Operation → Freed
free_operation none = not_freed
free_operation (some op) =
    if op.mode == mode_encrypt || op.mode == mode_decrypt
    then if op.alg == alg_aes_cbc_nopad
      then aes_freed
      else if op.alg == alg_aes_gcm
      then gcm_freed
      else only_freed
    else only_freed

-- TEE_SetOperationKey on handles that are not NULL
unfoldable pub set_key : Operation → Object → Outcome
unfolding set_flag
set_key op key =
    if not (key.type == type_aes)
      && (not (key.type == type_ecdh_keypair) && not (key.type == type_ecdsa_keypair))
    then returns error_bad_parameters op nothing
    else if key.type == type_aes
    then returns success
        (record op {
          aekey = take 32 key.public_key;
          flags = set_flag handle_flag_key_set op.flags;
        })
        nothing
    else returns success
        (record op {
          pubkey = take 32 key.public_key;
          prikey = take 64 key.private_key;
          flags = set_flag handle_flag_key_set op.flags;
        })
        nothing

unfoldable pub set_operation_key : Option Operation → Option Object → Outcome
unfolding set_key
set_operation_key none key = refuses error_bad_parameters
set_operation_key (some op) none = returns error_bad_parameters op nothing
set_operation_key (some op) (some key) = set_key op key
