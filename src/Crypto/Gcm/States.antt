-- ===== src/Crypto/Gcm/States.antt =====
-- The states of an operation of api/tee-internal-api-cryptlib.c under any calls on its handle.
use ta_ref.Prelude.{
  ℕ, zero, suc, ◌≤◌, ◌<◌, ◌≡◌, inl, inr, ◌⊎◌, Bool, true, List, [], ◌∷◌, Option, none, some, ◌==◌,
  ltb, arith, take, Bool-cases,
}
use ta_ref.Text.{Str}
use ta_ref.Crypto.{
  mode_encrypt, bytes, null, Library, Operation, Object, Buffer, Written, and_then, Outcome,
  returns, refuses, panics, has_flag, set_flag, handle_flag_key_set,
}
use ta_ref.Crypto.Handle.{set_operation_key, set_key}
use ta_ref.Crypto.Digest.{digest_update, digest_do_final, digest_chunk, digest_finish}
use ta_ref.Crypto.Gcm.{
  eq_str, ae_init, ae_nonce, ae_setkey, ae_update_aad, ae_aad, ae_starts, with_aad, ae_update,
  ae_update_data, ae_encrypt_final, ae_encrypt_data, encrypt_ends, ae_decrypt_final,
  ae_decrypt_data, decrypt_ends, gcm_last,
}
use ta_ref.Crypto.Cipher.{cipher_init, cipher_update, cipher_do_final, cipher_crypt, cipher_setkey}
use ta_ref.Crypto.Sign.{asymmetric_sign_digest, asymmetric_verify_digest}

-- A call on a handle, with its other arguments.
pub data Call : Type 0 where
  call_set_key : Option Object → Call
  call_digest_update : Str → Call
  call_digest_do_final : Buffer → Bool → ℕ → Call
  call_ae_init : Buffer → ℕ → ℕ → Call
  call_ae_update_aad : Buffer → Call
  call_ae_update : Buffer → Bool → Bool → Call
  call_ae_encrypt_final : Buffer → Bool → Bool → Bool → Option ℕ → Call
  call_ae_decrypt_final : Buffer → Bool → Bool → Option Str → ℕ → Call
  call_cipher_init : Str → Call
  call_cipher_update : Str → Call
  call_cipher_do_final : Str → Call
  call_sign : Str → ℕ → Call
  call_verify : Str → Str → ℕ → Call

unfoldable pub run_call : Library → Call → Operation → Outcome
run_call lib (call_set_key key) op = set_operation_key (some op) key
run_call lib (call_digest_update s) op = digest_update lib (some op) s
run_call lib (call_digest_do_final b h n) op = digest_do_final lib (some op) b h n
run_call lib (call_ae_init nonce t a) op = ae_init lib (some op) nonce t a
run_call lib (call_ae_update_aad b) op = ae_update_aad lib (some op) b
run_call lib (call_ae_update b d l) op = ae_update lib (some op) b d l
run_call lib (call_ae_encrypt_final b d l t n) op = ae_encrypt_final lib (some op) b d l t n
run_call lib (call_ae_decrypt_final b d l t n) op = ae_decrypt_final lib (some op) b d l t n
run_call lib (call_cipher_init s) op = cipher_init lib (some op) s
run_call lib (call_cipher_update s) op = cipher_update lib (some op) s
run_call lib (call_cipher_do_final s) op = cipher_do_final lib (some op) s
run_call lib (call_sign s n) op = asymmetric_sign_digest lib (some op) s n
run_call lib (call_verify s t n) op = asymmetric_verify_digest lib (some op) s t n

-- The calls of a list, one after another; none is a panic.
unfoldable pub run_calls : Library → List Call → Operation → Option Operation
run_calls lib [] op = some op
run_calls lib (c ∷ cs) op = elim (run_call lib c op) [
  | returns code op' w ↦ run_calls lib cs op'
  | refuses code ↦ run_calls lib cs op
  | panics ↦ none
]

-- How the state of the authenticated encryption changes: it stays, it leaves 0 for GCM_ST_INIT where
-- a key is set, or it goes on to one of the states behind that.
abbrev pub Moves : ℕ → ℕ → ℕ → Type 0
Moves flags state state' =
    (state' ≡ state)
    ⊎ (((state ≡ 0) × (has_flag handle_flag_key_set flags ≡ true) × (state' ≡ 1))
        ⊎ ((0 < state) × (2 ≤ state') × (state' ≤ 4)))

-- How an operation changes under a call: the mode and the algorithm stay, and the flags but for the one
-- of a key that is set.
pub record Follows (op op' : Operation) : Type 0 where
  pub mode_kept : op'.mode ≡ op.mode
  pub alg_kept : op'.alg ≡ op.alg
  pub flags_kept : (op'.flags ≡ op.flags) ⊎ (op'.flags ≡ set_flag handle_flag_key_set op.flags)
  pub moved : Moves op.flags op.aegcm_state op'.aegcm_state

module _ (lib : Library) (op op' : Operation) (code : ℕ) (w : Written) where
  ae_init-Follows :
      (nonce : Buffer) (t a : ℕ)
      → ae_init lib (some op) nonce t a ≡ returns code op' w
      → Follows op op'
  unfolding ae_init ae_nonce ae_setkey
  ae_init-Follows (null n) t a h = ground arith
  ae_init-Follows (bytes nonce) t a h = ground arith

  set_key-Follows :
      (key : Option Object) → set_operation_key (some op) key ≡ returns code op' w → Follows op op'
  unfolding set_operation_key set_key
  set_key-Follows none h = ground arith
  set_key-Follows (some key) h = ground arith

  digest_update-Follows :
      (s : Str) → digest_update lib (some op) s ≡ returns code op' w → Follows op op'
  unfolding digest_update
  digest_update-Follows s h = ground arith

  digest_do_final-Follows :
      (b : Buffer) (hash : Bool) (n : ℕ)
      → digest_do_final lib (some op) b hash n ≡ returns code op' w
      → Follows op op'
  unfolding digest_do_final digest_chunk digest_finish
  digest_do_final-Follows (null zero) hash n h = ground arith
  digest_do_final-Follows (null (suc m)) hash n h = ground arith
  digest_do_final-Follows (bytes []) hash n h = ground arith
  digest_do_final-Follows (bytes (c ∷ s)) hash n h = ground arith

  ae_update_aad-Follows :
      (b : Buffer) → ae_update_aad lib (some op) b ≡ returns code op' w → Follows op op'
  unfolding ae_update_aad ae_aad ae_starts
  ae_update_aad-Follows (null zero) h = ground arith
  ae_update_aad-Follows (null (suc m)) h = ground arith
  ae_update_aad-Follows (bytes s) h = ground arith

  ae_update-Follows :
      (b : Buffer) (d l : Bool)
      → ae_update lib (some op) b d l ≡ returns code op' w
      → Follows op op'
  unfolding ae_update with_aad and_then ae_update_data ae_aad ae_starts
  ae_update-Follows (null n) d l h = ground arith
  ae_update-Follows (bytes src) d l h = ground arith

  ae_encrypt_final-Follows :
      (b : Buffer) (d l t : Bool) (n : Option ℕ)
      → ae_encrypt_final lib (some op) b d l t n ≡ returns code op' w
      → Follows op op'
  unfolding ae_encrypt_final with_aad and_then ae_encrypt_data encrypt_ends gcm_last ae_aad
      ae_starts
  ae_encrypt_final-Follows (null m) d l t n h = ground arith
  ae_encrypt_final-Follows (bytes src) d l t n h = ground arith

  decrypt_ends-Follows :
      (src tag : Str) (r : Option (Str × Str × Str))
      → 2 ≤ op.aegcm_state
      → decrypt_ends op src tag r ≡ returns code op' w
      → Follows op op'
  unfolding decrypt_ends
  decrypt_ends-Follows src tag none started h = ground arith
  decrypt_ends-Follows src tag (some (ctx, out, check_tag)) started h =
      elim (Bool-cases (eq_str (take 16 tag) (take 16 check_tag))) [
        | inl same ↦ ground arith
        | inr other ↦ ground arith
      ]

  ae_decrypt_data-Follows :
      (src tag : Str) → ae_decrypt_data lib src tag op ≡ returns code op' w → Follows op op'
  unfolding ae_decrypt_data
  ae_decrypt_data-Follows src tag h = elim (Bool-cases (ltb op.aegcm_state 2)) [
    | inl early ↦ ground arith
    | inr ready ↦
        decrypt_ends-Follows src tag (gcm_last lib op.aegcmctx src) (ground arith) (rw ready at h)
  ]

  cipher_init-Follows :
      (s : Str) → cipher_init lib (some op) s ≡ returns code op' w → Follows op op'
  unfolding cipher_init cipher_setkey
  cipher_init-Follows s h = ground arith

  cipher_update-Follows :
      (s : Str) → cipher_update lib (some op) s ≡ returns code op' w → Follows op op'
  unfolding cipher_update cipher_crypt
  cipher_update-Follows s h = ground arith

  sign-Follows :
      (s : Str) (n : ℕ)
      → asymmetric_sign_digest lib (some op) s n ≡ returns code op' w
      → Follows op op'
  unfolding asymmetric_sign_digest
  sign-Follows s n h = ground arith

  verify-Follows :
      (s t : Str) (n : ℕ)
      → asymmetric_verify_digest lib (some op) s t n ≡ returns code op' w
      → Follows op op'
  unfolding asymmetric_verify_digest
  verify-Follows s t n h = ground arith

-- A step after the one to GCM_ST_AAD.
Follows-aad :
    (op op' : Operation) (ctx : Str)
    → op.aegcm_state ≡ 1
    → Follows (record op { aegcmctx = ctx; aegcm_state = 2 }) op'
    → Follows op op'
Follows-aad op op' ctx initial f = ground arith

module _ (lib : Library) (op op' : Operation) (code : ℕ) (w : Written) where
  -- The call of TEE_AEUpdateAAD before the rest of TEE_AEDecryptFinal.
  with_aad-Follows :
      (src tag : Str)
      → with_aad lib op (ae_decrypt_data lib src tag) ≡ returns code op' w
      → Follows op op'
  unfolding with_aad and_then ae_aad ae_starts
  with_aad-Follows src tag h = elim (Bool-cases (op.aegcm_state == 1)) [
    | inr other ↦ ae_decrypt_data-Follows lib op op' code w src tag (rw other at h)
    | inl initial ↦
        let (_, ctx) = lib.gcm_starts op.aegcmctx (op.mode == mode_encrypt) op.aeiv [] in
        let op1 : Operation = record op { aegcmctx = ctx; aegcm_state = 2 } in
        Follows-aad op op' ctx (ground arith)
          (ae_decrypt_data-Follows lib op1 op' code w src tag (ground arith))
  ]

  ae_decrypt_final-Follows :
      (b : Buffer) (d l : Bool) (t : Option Str) (n : ℕ)
      → ae_decrypt_final lib (some op) b d l t n ≡ returns code op' w
      → Follows op op'
  unfolding ae_decrypt_final
  ae_decrypt_final-Follows (null m) d l t n h = ground arith
  ae_decrypt_final-Follows (bytes src) d l none n h = ground arith
  ae_decrypt_final-Follows (bytes src) d l (some tag) n h = ground (arith, with_aad-Follows src tag)

  pub run_call-Follows : (c : Call) → run_call lib c op ≡ returns code op' w → Follows op op'
  unfolding run_call cipher_do_final
  run_call-Follows (call_set_key key) h = set_key-Follows lib op op' code w key h
  run_call-Follows (call_digest_update s) h = digest_update-Follows lib op op' code w s h
  run_call-Follows (call_digest_do_final b hash n) h =
      digest_do_final-Follows lib op op' code w b hash n h
  run_call-Follows (call_ae_init nonce t a) h = ae_init-Follows lib op op' code w nonce t a h
  run_call-Follows (call_ae_update_aad b) h = ae_update_aad-Follows lib op op' code w b h
  run_call-Follows (call_ae_update b d l) h = ae_update-Follows lib op op' code w b d l h
  run_call-Follows (call_ae_encrypt_final b d l t n) h =
      ae_encrypt_final-Follows lib op op' code w b d l t n h
  run_call-Follows (call_ae_decrypt_final b d l t n) h = ae_decrypt_final-Follows b d l t n h
  run_call-Follows (call_cipher_init s) h = cipher_init-Follows lib op op' code w s h
  run_call-Follows (call_cipher_update s) h = cipher_update-Follows lib op op' code w s h
  run_call-Follows (call_cipher_do_final s) h = cipher_update-Follows lib op op' code w s h
  run_call-Follows (call_sign s n) h = sign-Follows lib op op' code w s n h
  run_call-Follows (call_verify s t n) h = verify-Follows lib op op' code w s t n h
