-- ===== src/Crypto/Sign/Laws.antt =====
-- Keys, signatures and their verification through the handles of api/tee-internal-api-cryptlib.c.
use ta_ref.Prelude.{ℕ, ◌≡◌, ◌≢◌, refl, ap, ◌∙◌, true, false, some, arith, take}
use ta_ref.Text.{Str}
use ta_ref.Crypto.{
  Library, Operation, Object, returns, nothing, success, has_flag, set_flag, handle_flag_key_set,
  mode_sign, mode_verify, alg_ecdsa_p256, type_ecdsa_keypair,
}
use ta_ref.Crypto.Handle.{set_operation_key, set_key}
use ta_ref.Crypto.Key.{generate_key, generate}
use ta_ref.Crypto.Sign.{asymmetric_sign_digest, asymmetric_verify_digest}

-- What Ed25519 documents of its keys: they have 32 and 64 bytes, and a signature with a pair is valid.
pub record SignatureLaws (lib : Library) : Type 0 where
  pub public_length :
      (seed : Str)
      → take 32 (lib.ed25519_create_keypair seed).0 ≡ (lib.ed25519_create_keypair seed).0
  pub private_length :
      (seed : Str)
      → take 64 (lib.ed25519_create_keypair seed).1 ≡ (lib.ed25519_create_keypair seed).1
  pub valid :
      (seed message : Str)
      → lib.ed25519_verify
          (lib.ed25519_sign message
            (lib.ed25519_create_keypair seed).0
            (lib.ed25519_create_keypair seed).1)
          message
          (lib.ed25519_create_keypair seed).0
        ≢ 0

-- The operation with a pair of keys.
unfoldable pub keyed : Operation → Str × Str → Operation
unfolding set_flag
keyed op (public_key, private_key) = record op {
  pubkey = public_key;
  prikey = private_key;
  flags = set_flag handle_flag_key_set op.flags;
}

module _ (lib : Library) (laws : SignatureLaws lib) (seed : Str) where
  generate_key_lem :
      (object : Object)
      → object.type ≡ type_ecdsa_keypair
      → has_flag handle_flag_key_set object.flags ≡ false
      → generate_key lib seed (some object) ≡ (
        success,
        some (record object {
          public_key = (lib.ed25519_create_keypair seed).0;
          private_key = (lib.ed25519_create_keypair seed).1;
          flags = set_flag handle_flag_key_set object.flags;
        }),
      )
  unfolding generate_key generate
  generate_key_lem object t fresh = ground arith

  set_operation_key_lem :
      (op : Operation) (key : Object)
      → key.type ≡ type_ecdsa_keypair
      → key.public_key ≡ (lib.ed25519_create_keypair seed).0
      → key.private_key ≡ (lib.ed25519_create_keypair seed).1
      → set_operation_key (some op) (some key)
        ≡ returns success (keyed op (lib.ed25519_create_keypair seed)) nothing
  unfolding set_operation_key set_key keyed
  set_operation_key_lem op key t public private = ground (
    arith,
    ap (take 32) public ∙ laws.public_length seed,
    ap (take 64) private ∙ laws.private_length seed,
  )

  set_flag-has_flag :
      (flags : ℕ) → has_flag handle_flag_key_set (set_flag handle_flag_key_set flags) ≡ true
  unfolding set_flag has_flag
  set_flag-has_flag flags = ground arith

  sign_lem :
      (op : Operation) (digest : Str) (room : ℕ)
      → op.mode ≡ mode_sign
      → op.alg ≡ alg_ecdsa_p256
      → asymmetric_sign_digest lib (some (keyed op (lib.ed25519_create_keypair seed))) digest room
        ≡ returns success (keyed op (lib.ed25519_create_keypair seed)) (record nothing {
          dest = some (
              lib.ed25519_sign digest
                (lib.ed25519_create_keypair seed).0
                (lib.ed25519_create_keypair seed).1);
          dest_len = some 64;
        })
  unfolding asymmetric_sign_digest keyed
  sign_lem op digest room m a = ground (arith, set_flag-has_flag op.flags)

  verify_lem :
      (op : Operation) (digest : Str)
      → op.mode ≡ mode_verify
      → op.alg ≡ alg_ecdsa_p256
      → asymmetric_verify_digest lib
          (some (keyed op (lib.ed25519_create_keypair seed)))
          digest
          (lib.ed25519_sign digest
            (lib.ed25519_create_keypair seed).0
            (lib.ed25519_create_keypair seed).1)
          64
        ≡ returns success (keyed op (lib.ed25519_create_keypair seed)) nothing
  unfolding asymmetric_verify_digest keyed
  verify_lem op digest m a = ground (arith, set_flag-has_flag op.flags, laws.valid seed digest)

-- If Ed25519 is as documented, then for a key object for signatures without a key and handles for
-- signing and verifying TEE_GenerateKey succeeds, TEE_SetOperationKey with the object succeeds on both,
-- TEE_AsymmetricSignDigest gives a signature of any digest, whatever the length of the buffer that it
-- is given, and leaves the operation as it is, and
-- TEE_AsymmetricVerifyDigest accepts that signature.
pub verify_digest-sign_digest :
    (lib : Library) (seed digest : Str) (room : ℕ) (object : Object) (s v : Operation)
    → SignatureLaws lib
    → object.type ≡ type_ecdsa_keypair
    → has_flag handle_flag_key_set object.flags ≡ false
    → s.mode ≡ mode_sign
    → s.alg ≡ alg_ecdsa_p256
    → v.mode ≡ mode_verify
    → v.alg ≡ alg_ecdsa_p256
    → (key : Object) × (s1 v1 : Operation) × (signature : Str) × (generate_key lib seed
          (some object)
        ≡ (success, some key))
      × (set_operation_key (some s) (some key) ≡ returns success s1 nothing)
      × (set_operation_key (some v) (some key) ≡ returns success v1 nothing)
      × (asymmetric_sign_digest lib (some s1) digest room
          ≡ returns success s1 (record nothing { dest = some signature; dest_len = some 64 }))
      × (asymmetric_verify_digest lib (some v1) digest signature 64 ≡ returns success v1 nothing)
verify_digest-sign_digest lib seed digest room object s v laws kind fresh ms algs mv av =
    let pair = lib.ed25519_create_keypair seed in
    let key : Object = record object {
      public_key = pair.0;
      private_key = pair.1;
      flags = set_flag handle_flag_key_set object.flags;
    } in
    (
      key,
      keyed s pair,
      keyed v pair,
      lib.ed25519_sign digest pair.0 pair.1,
      generate_key_lem lib laws seed object kind fresh,
      set_operation_key_lem lib laws seed s key kind refl refl,
      set_operation_key_lem lib laws seed v key kind refl refl,
      sign_lem lib laws seed s digest room ms algs,
      verify_lem lib laws seed v digest mv av,
    )
