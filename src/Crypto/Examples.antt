-- ===== src/Crypto/Examples.antt =====
-- The handles with libraries that change nothing: a cipher that gives its input, a hash that is the
-- data, and signatures that are the key with the digest.
use ta_ref.Prelude.{
  ◌&&◌, ℕ, ◌≡◌, ◌≢◌, refl, ap, true, false, List, [], ◌∷◌, ◌++◌, Option, none, some, arith, take,
}
use ta_ref.Text.{Str}
use mathlib.Core.List.{append-nil, append_assoc}
use ta_ref.Crypto.{
  Library, Operation, Object, bytes, null, returns, nothing, zeros, success, error_bad_parameters,
  error_out_of_memory, error_not_supported, has_flag, mode_encrypt, mode_sign, alg_aes_gcm,
  alg_aes_cbc_nopad, alg_sha256, alg_ecdsa_p256, type_ecdsa_keypair,
}
use ta_ref.Crypto.{type_aes}
use ta_ref.Crypto.Handle.{set_key, allocate_operation, set_operation_key, zeroed}
use ta_ref.Crypto.Handle.Laws.{supports, supported, IsAllocated, allocate_operation_lem}
use ta_ref.Crypto.Digest.{digest_do_final}
use ta_ref.Crypto.Digest.Laws.{Sha3Laws, digest_all, concat, digest_do_final-pieces}
use ta_ref.Crypto.Gcm.{ae_init, ae_update_aad, ae_encrypt_final, ae_decrypt_final, gcm_last}
use ta_ref.Crypto.Gcm.States.{
  call_set_key, call_ae_init, call_ae_update_aad, call_ae_encrypt_final, Call, run_call, run_calls,
}
use ta_ref.Crypto.Gcm.Sequences.{IsValid, run_calls-allocated, ae_init_once}
use ta_ref.Crypto.Gcm.Forgery.{released, accepts, ae_decrypt_final-tags}
use ta_ref.Crypto.Gcm.RoundTrip.{GcmLaws, encrypt_message, decrypt_message}
use ta_ref.Crypto.Gcm.RoundTrip.Laws.{decrypt_message-encrypt_message}
use ta_ref.Crypto.Cipher.{cipher_init}
use ta_ref.Crypto.Cipher.Laws.{CbcLaws, cipher_all, cipher_all-cipher_all}
use ta_ref.Crypto.Key.{generate_key}
use ta_ref.Crypto.Sign.{asymmetric_sign_digest, asymmetric_verify_digest}
use ta_ref.Crypto.Sign.Laws.{SignatureLaws, verify_digest-sign_digest}

abbrev plain : Library
plain = record {
  sha3_ctx_size = 0;
  aes_ctx_size = 0;
  gcm_ctx_size = 0;
  sha3_init = λ ctx n. [];
  sha3_update = λ ctx s. ctx ++ s;
  sha3_final = λ ctx. (take 32 ctx, ctx);
  gcm_init = λ ctx. [];
  gcm_setkey = λ ctx key. (0, key);
  gcm_starts = λ ctx encrypts iv aad. (0, iv ++ aad);
  gcm_update = λ ctx s. (0, ctx ++ s, s);
  gcm_finish = λ ctx. (0, ctx, take 16 ctx);
  aes_init = λ ctx. [];
  aes_setkey = λ ctx encrypts key. key;
  aes_crypt_cbc = λ ctx encrypts iv s. (iv, s);
  ed25519_create_keypair = λ seed. (zeros 32, zeros 64);
  ed25519_sign = λ message public_key private_key. public_key ++ message;
  ed25519_verify = λ signature message public_key. 1;
}

plain_gcm : GcmLaws plain ◌≡◌ ◌≡◌
plain_gcm = record {
  setkey_ok = λ ctx key. refl;
  starts_ok = λ ctx iv aad encrypts. refl;
  starts_running = λ c d key iv aad. refl;
  update_ok = λ ctx src. refl;
  update_back = λ c d src same. refl;
  update_running = λ c d src same whole. ap (λ ctx. ctx ++ src) same;
  update_ended = λ c d src same. ap (λ ctx. ctx ++ src) same;
  finish_ok = λ ctx. refl;
  finish_tag = λ c d same. ap (take 16) same;
}

plain_sha3 : Sha3Laws plain
plain_sha3 = record { update_nothing = append-nil; update_pieces = append_assoc }

plain_cbc : CbcLaws plain
plain_cbc = record { crypt_back = λ c d key iv src whole. refl }

plain_signatures : SignatureLaws plain
unfolding zeros
plain_signatures = record {
  public_length = λ seed. refl;
  private_length = λ seed. refl;
  valid = λ seed message. omega arith;
}

abbrev handle_for : ℕ → ℕ → ℕ → ℕ → Operation
handle_for mode alg flags state = record {
  mode = mode;
  flags = flags;
  alg = alg;
  ctx = [];
  aectx = [];
  aegcmctx = [];
  aegcm_state = state;
  aeiv = [];
  aekey = [];
  pubkey = [];
  prikey = [];
}

abbrev nonce : Str
nonce = 1 ∷ 2 ∷ 3 ∷ 4 ∷ 5 ∷ 6 ∷ 7 ∷ 8 ∷ 9 ∷ 10 ∷ 11 ∷ 12 ∷ 13 ∷ 14 ∷ 15 ∷ 16 ∷ []

decrypt_message-encrypt_message_example :
    (outs : List Str) × (out tag : Str) × (encrypt_message plain
        (handle_for 0 alg_aes_gcm 262144 0)
        nonce
        (7 ∷ [])
        (nonce ∷ [])
        (8 ∷ [])
      ≡ some (outs, out, tag))
    × (decrypt_message plain (handle_for 1 alg_aes_gcm 262144 0) nonce (7 ∷ []) outs out tag
        ≡ some (nonce ∷ [], 8 ∷ []))
unfolding has_flag
decrypt_message-encrypt_message_example =
    decrypt_message-encrypt_message plain ◌≡◌ ◌≡◌ (handle_for 0 alg_aes_gcm 262144 0)
      (handle_for 1 alg_aes_gcm 262144 0) nonce (7 ∷ []) (nonce ∷ []) (8 ∷ []) plain_gcm
      (record { for_mode = refl; for_gcm = refl; unstarted = refl; with_key = refl })
      (record { for_mode = refl; for_gcm = refl; unstarted = refl; with_key = refl }) refl refl
      (omega arith) refl

abbrev piece : Str
piece = 8 ∷ []

abbrev forged : Str
forged = 9 ∷ []

ae_decrypt_final-tags_example :
    let op = some (handle_for 1 alg_aes_gcm 262144 2) in
    (released (ae_decrypt_final plain op (bytes piece) true true (some piece) 16)
      ≡ released (ae_decrypt_final plain op (bytes piece) true true (some forged) 16))
    × (accepts (ae_decrypt_final plain op (bytes piece) true true (some piece) 16)
          && accepts (ae_decrypt_final plain op (bytes piece) true true (some forged) 16)
        ≡ false)
ae_decrypt_final-tags_example =
    ae_decrypt_final-tags plain (some (handle_for 1 alg_aes_gcm 262144 2)) (bytes piece) true true
      piece forged 16 (λ e. cc e)

digest_do_final-pieces_example :
    let op = handle_for 5 alg_sha256 0 0 in
    (op' : Operation) × (digest_all plain (nonce ∷ []) op ≡ some op')
    × (digest_do_final plain (some op') (bytes (8 ∷ [])) true 32
        ≡ digest_do_final plain (some op) (bytes (concat (nonce ∷ []) ++ 8 ∷ [])) true 32)
digest_do_final-pieces_example =
    digest_do_final-pieces plain (handle_for 5 alg_sha256 0 0) (nonce ∷ []) (8 ∷ []) 32 plain_sha3
      refl refl (omega arith)

cipher_all-cipher_all_example :
    let e = handle_for 0 alg_aes_cbc_nopad 262144 0 in
    let d = handle_for 1 alg_aes_cbc_nopad 262144 0 in
    (e1 d1 : Operation) × (outs : List Str) × (cipher_init plain (some e) nonce
      ≡ returns 0 e1 nothing)
    × (cipher_init plain (some d) nonce ≡ returns 0 d1 nothing)
    × (cipher_all plain (nonce ∷ []) e1 ≡ some outs)
    × (cipher_all plain outs d1 ≡ some (nonce ∷ []))
unfolding has_flag
cipher_all-cipher_all_example =
    cipher_all-cipher_all plain (handle_for 0 alg_aes_cbc_nopad 262144 0)
      (handle_for 1 alg_aes_cbc_nopad 262144 0) nonce (nonce ∷ []) plain_cbc refl refl refl refl
      refl refl refl refl refl

abbrev new_key : Object
new_key = record {
  type = type_ecdsa_keypair;
  flags = 0;
  desc = 0;
  persist_ctx = [];
  persist_iv = [];
  public_key = [];
  private_key = [];
}

verify_digest-sign_digest_example :
    let s = handle_for 2 alg_ecdsa_p256 0 0 in
    let v = handle_for 3 alg_ecdsa_p256 0 0 in
    (key : Object) × (s1 v1 : Operation) × (signature : Str) × (generate_key plain nonce
        (some new_key)
      ≡ (success, some key))
    × (set_operation_key (some s) (some key) ≡ returns success s1 nothing)
    × (set_operation_key (some v) (some key) ≡ returns success v1 nothing)
    × (asymmetric_sign_digest plain (some s1) (7 ∷ []) 64
        ≡ returns success s1 (record nothing { dest = some signature; dest_len = some 64 }))
    × (asymmetric_verify_digest plain (some v1) (7 ∷ []) signature 64 ≡ returns success v1 nothing)
unfolding has_flag
verify_digest-sign_digest_example =
    verify_digest-sign_digest plain nonce (7 ∷ []) 64 new_key (handle_for 2 alg_ecdsa_p256 0 0)
      (handle_for 3 alg_ecdsa_p256 0 0) plain_signatures refl refl refl refl refl refl

allocate_operation_lem_example :
    (supports supported mode_sign alg_ecdsa_p256 ≡ true
      → IsAllocated mode_sign alg_ecdsa_p256
          (allocate_operation plain (some (handle_for 0 0 0 0)) alg_ecdsa_p256 mode_sign 256)
        × (allocate_operation plain none alg_ecdsa_p256 mode_sign 256
            ≡ (error_out_of_memory, none)))
    × (supports supported mode_sign alg_ecdsa_p256 ≡ false
        → (malloc : Option Operation)
        → allocate_operation plain malloc alg_ecdsa_p256 mode_sign 256
          ≡ (error_not_supported, none))
allocate_operation_lem_example =
    allocate_operation_lem plain (handle_for 0 0 0 0) alg_ecdsa_p256 mode_sign 256

abbrev key_calls : List Call
key_calls =
    call_set_key (some (record new_key { type = type_aes; public_key = nonce }))
    ∷ call_ae_init (bytes nonce) 128 0
    ∷ []

abbrev started : Operation
started = record (zeroed plain) {
  mode = mode_encrypt;
  alg = alg_aes_gcm;
  flags = 262144;
  aekey = nonce;
  aegcmctx = nonce;
  aeiv = nonce;
  aegcm_state = 1;
}

run_calls-allocated_example :
    IsValid started × (mode_encrypt ≡ mode_encrypt) × (alg_aes_gcm ≡ alg_aes_gcm)
unfolding zeroed run_calls run_call allocate_operation set_operation_key set_key ae_init has_flag
run_calls-allocated_example =
    run_calls-allocated plain (handle_for 0 0 0 0) alg_aes_gcm mode_encrypt 256 key_calls
      (record (zeroed plain) { mode = mode_encrypt; alg = alg_aes_gcm }) started (omega arith) refl
      refl

abbrev begun : Operation
begun = record (handle_for 0 alg_aes_gcm 262144 1) { aeiv = nonce }

abbrev ended : Operation
ended = record (handle_for 0 alg_aes_gcm 262144 4) { aeiv = nonce; aegcmctx = nonce ++ piece }

abbrev message_calls : List Call
message_calls =
    call_ae_update_aad (null 0) ∷ call_ae_encrypt_final (bytes piece) true true true (some 16) ∷ []

ae_init_once_example : (error_bad_parameters ≢ success) × (ended ≡ ended)
unfolding ae_init has_flag run_calls run_call ae_update_aad ae_encrypt_final gcm_last
ae_init_once_example =
    ae_init_once plain message_calls (handle_for 0 alg_aes_gcm 262144 0) begun ended ended nothing
      nothing (bytes nonce) (bytes nonce) 128 0 128 0 error_bad_parameters refl refl refl
