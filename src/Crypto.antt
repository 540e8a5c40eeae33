-- ===== src/Crypto.antt =====
-- api/tee-internal-api-cryptlib.c with its types in api/keystone/tee_api_tee_types.h and the constants
-- of api/include: handles of operations and keys, as they are built with mbed TLS, SHA-3 and Ed25519.
-- These libraries are an argument: what their functions do to the bytes of a context, and the value
-- that they return.
pub mod Handle
pub mod Key
pub mod Digest
pub mod Gcm
pub mod Cipher
pub mod Sign
mod Examples
use ta_ref.Prelude.{
  ℕ, zero, suc, ◌+◌, ◌/◌, ◌%◌, Bool, true, false, List, [], ◌∷◌, Option, none, some, ◌==◌,
  if◌then◌else◌,
}
use ta_ref.Text.{Str}

-- TEE_Result
abbrev pub success : ℕ
success = 0

abbrev pub error_bad_parameters : ℕ
error_bad_parameters = 0xFFFF0006

abbrev pub error_not_supported : ℕ
error_not_supported = 0xFFFF000A

abbrev pub error_out_of_memory : ℕ
error_out_of_memory = 0xFFFF000C

abbrev pub error_short_buffer : ℕ
error_short_buffer = 0xFFFF0010

abbrev pub error_mac_invalid : ℕ
error_mac_invalid = 0xFFFF3071

abbrev pub error_signature_invalid : ℕ
error_signature_invalid = 0xFFFF3072

-- TEE_OperationMode
abbrev pub mode_encrypt : ℕ
mode_encrypt = 0

abbrev pub mode_decrypt : ℕ
mode_decrypt = 1

abbrev pub mode_sign : ℕ
mode_sign = 2

abbrev pub mode_verify : ℕ
mode_verify = 3

abbrev pub mode_digest : ℕ
mode_digest = 5

abbrev pub alg_aes_cbc_nopad : ℕ
alg_aes_cbc_nopad = 0x10000110

abbrev pub alg_aes_gcm : ℕ
alg_aes_gcm = 0x40000810

abbrev pub alg_sha256 : ℕ
alg_sha256 = 0x50000004

abbrev pub alg_ecdsa_p256 : ℕ
alg_ecdsa_p256 = 0x70003041

abbrev pub type_aes : ℕ
type_aes = 0xA0000010

abbrev pub type_ecdsa_keypair : ℕ
type_ecdsa_keypair = 0xA1000041

abbrev pub type_ecdh_keypair : ℕ
type_ecdh_keypair = 0xA1000042

abbrev pub handle_flag_persistent : ℕ
handle_flag_persistent = 0x00010000

abbrev pub handle_flag_key_set : ℕ
handle_flag_key_set = 0x00040000

-- flags & flag, for a flag of one bit
unfoldable pub has_flag : ℕ → ℕ → Bool
has_flag flag flags = flags / flag % 2 == 1

-- flags |= flag, for a flag of one bit
unfoldable pub set_flag : ℕ → ℕ → ℕ
unfolding has_flag
set_flag flag flags = if has_flag flag flags then flags else flags + flag

-- memset(p, 0, n)
unfoldable pub zeros : ℕ → Str
zeros zero = []
zeros (suc n) = 0 ∷ zeros n

-- The functions of the libraries: sha3_init, sha3_update, sha3_final; mbedtls_gcm_init, _setkey,
-- _starts, _update, _finish; mbedtls_aes_init, _setkey_enc, _setkey_dec, _crypt_cbc;
-- ed25519_create_keypair, ed25519_sign, ed25519_verify. A Boolean is true for encryption.
pub record Library : Type 0 where
  pub sha3_ctx_size : ℕ
  pub aes_ctx_size : ℕ
  pub gcm_ctx_size : ℕ
  pub sha3_init : Str → ℕ → Str
  pub sha3_update : Str → Str → Str
  pub sha3_final : Str → Str × Str
  pub gcm_init : Str → Str
  pub gcm_setkey : Str → Str → ℕ × Str
  pub gcm_starts : Str → Bool → Str → Str → ℕ × Str
  pub gcm_update : Str → Str → ℕ × Str × Str
  pub gcm_finish : Str → ℕ × Str × Str
  pub aes_init : Str → Str
  pub aes_setkey : Str → Bool → Str → Str
  pub aes_crypt_cbc : Str → Bool → Str → Str → Str × Str
  pub ed25519_create_keypair : Str → Str × Str
  pub ed25519_sign : Str → Str → Str → Str
  pub ed25519_verify : Str → Str → Str → ℕ

-- struct __TEE_OperationHandle
pub record Operation : Type 0 where
  pub mode : ℕ
  pub flags : ℕ
  pub alg : ℕ
  pub ctx : Str
  pub aectx : Str
  pub aegcmctx : Str
  pub aegcm_state : ℕ
  pub aeiv : Str
  pub aekey : Str
  pub pubkey : Str
  pub prikey : Str

-- struct __TEE_ObjectHandle
pub record Object : Type 0 where
  pub type : ℕ
  pub flags : ℕ
  pub desc : ℕ
  pub persist_ctx : Str
  pub persist_iv : Str
  pub public_key : Str
  pub private_key : Str

-- A pointer to bytes with their length: it may be NULL.
pub data Buffer : Type 0 where
  null : ℕ → Buffer
  bytes : Str → Buffer

-- What a call writes through its pointers: destData, *destLen (or a signature or hash and its length),
-- tag and *tagLen.
pub record Written : Type 0 where
  pub dest : Option Str
  pub dest_len : Option ℕ
  pub tag : Option Str
  pub tag_len : Option ℕ

abbrev pub nothing : Written
nothing = record { dest = none; dest_len = none; tag = none; tag_len = none }

-- A call returns a TEE_Result (0 where it returns nothing) with the operation and what it wrote, refuses
-- a NULL handle, or does not return (TEE_Panic).
pub data Outcome : Type 0 where
  returns : ℕ → Operation → Written → Outcome
  refuses : ℕ → Outcome
  panics : Outcome

-- The rest of a function behind a call that it makes.
unfoldable pub and_then : Outcome → (Operation → Outcome) → Outcome
and_then (returns code op w) rest = rest op
and_then (refuses code) rest = refuses code
and_then panics rest = panics
