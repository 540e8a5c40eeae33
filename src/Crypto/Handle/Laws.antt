-- ===== src/Crypto/Handle/Laws.antt =====
-- Which operations TEE_AllocateOperation of api/tee-internal-api-cryptlib.c allocates.
use ta_ref.Prelude.{
  ℕ, ◌≡◌, Bool, true, false, ◌&&◌, ◌||◌, List, [], ◌∷◌, Option, none, some, if◌then◌else◌, ◌==◌,
  arith,
}
use ta_ref.Crypto.{
  Library, Operation, success, error_not_supported, error_out_of_memory, mode_encrypt, mode_decrypt,
  mode_sign, mode_verify, mode_digest, alg_aes_cbc_nopad, alg_aes_gcm, alg_sha256, alg_ecdsa_p256,
}
use ta_ref.Crypto.Handle.{allocate_operation, allocate_zeroed, allocate_digest, zeroed}

-- The modes with their algorithms.
abbrev pub supported : List (ℕ × ℕ)
supported =
    (mode_digest, alg_sha256)
    ∷ (mode_encrypt, alg_aes_cbc_nopad)
    ∷ (mode_encrypt, alg_aes_gcm)
    ∷ (mode_decrypt, alg_aes_cbc_nopad)
    ∷ (mode_decrypt, alg_aes_gcm)
    ∷ (mode_sign, alg_ecdsa_p256)
    ∷ (mode_verify, alg_ecdsa_p256)
    ∷ []

abbrev pub supports : List (ℕ × ℕ) → ℕ → ℕ → Bool
supports [] mode algorithm = false
supports ((m, a) ∷ rest) mode algorithm =
    (mode == m && algorithm == a) || supports rest mode algorithm

-- What comes back for a pair: the result, and a handle with that mode and algorithm.
abbrev pub IsAllocated : ℕ → ℕ → ℕ × Option Operation → Type 0
IsAllocated mode algorithm r =
    (op : Operation) × (r ≡ (success, some op)) × (op.mode ≡ mode) × (op.alg ≡ algorithm)

-- The handle that comes back.
abbrev allocated : Library → Operation → ℕ → ℕ → Operation
allocated lib memory algorithm mode =
    if mode == mode_digest
    then record memory { mode = mode; alg = algorithm; ctx = lib.sha3_init memory.ctx 32 }
    else record (zeroed lib) { mode = mode; alg = algorithm }

-- TEE_AllocateOperation gives a handle with the mode and the algorithm exactly for the pairs of the
-- list where malloc gives memory; without memory it says so for these pairs, and every other pair is not
-- supported. maxKeySize does not matter, also where it is not one that the algorithm can have.
pub allocate_operation_lem :
    (lib : Library) (memory : Operation) (algorithm mode size : ℕ)
    → (supports supported mode algorithm ≡ true
        → IsAllocated mode algorithm (allocate_operation lib (some memory) algorithm mode size)
          × (allocate_operation lib none algorithm mode size ≡ (error_out_of_memory, none)))
      × (supports supported mode algorithm ≡ false
          → (malloc : Option Operation)
          → allocate_operation lib malloc algorithm mode size ≡ (error_not_supported, none))
unfolding allocate_operation allocate_zeroed allocate_digest
allocate_operation_lem lib memory algorithm mode size = (
  λ listed. (
    (allocated lib memory algorithm mode, ground arith, ground arith, ground arith),
    ground arith,
  ),
  λ other malloc. ground arith,
)
