-- ===== src/Crypto/Gcm/RoundTrip.antt =====
-- Authenticated encryption and decryption through two handles of api/tee-internal-api-cryptlib.c.
pub mod Steps
pub mod Laws
use ta_ref.Prelude.{
  ◌%◌, ℕ, zero, suc, ◌+◌, ◌-◌, ◌≤◌, ◌<◌, ◌≡◌, ◌≢◌, refl, sym, ap, ◌∙◌, inl, inr, ◌⊎◌, Bool, true,
  false, not, ◌&&◌, ◌||◌, List, [], ◌∷◌, ◌++◌, Option, none, some, if◌then◌else◌, get_elem?, ◌==◌,
  ltb, leb, arith, length, take, drop, all, map, Bool-cases, Option-cases, if_intro, all-append,
  length-append,
}
use ta_ref.Text.{Str, eq_str}
use ta_ref.Text.Laws.{eq_str_refl}
use ta_ref.Crypto.{
  Library, Operation, Buffer, null, bytes, Outcome, Written, returns, refuses, panics, nothing,
  success, has_flag, handle_flag_key_set, mode_encrypt, mode_decrypt, alg_aes_gcm,
  error_mac_invalid,
}
use ta_ref.Crypto.Gcm.{
  ae_init, ae_nonce, ae_setkey, ae_update_aad, ae_aad, ae_starts, aad_bytes, with_aad, ae_update,
  ae_update_data, ae_encrypt_final, ae_encrypt_data, encrypt_ends, ae_decrypt_final,
  ae_decrypt_data, decrypt_ends, gcm_last,
}

-- What mbed TLS documents of GCM: the functions do not fail, a decryption with the key, the vector and
-- the additional data of an encryption gives its input back piece by piece, where every piece but the
-- last is a multiple of 16 bytes, and both end with the same tag. Running relates the contexts of the two
-- before a piece, Ended those after the last.
pub record GcmLaws (lib : Library) (Running Ended : Str → Str → Type 0) : Type 0 where
  pub setkey_ok : (ctx key : Str) → (lib.gcm_setkey ctx key).0 ≡ 0
  pub starts_ok : (ctx iv aad : Str) (encrypts : Bool) → (lib.gcm_starts ctx encrypts iv aad).0 ≡ 0
  pub starts_running :
      (c d key iv aad : Str)
      → Running
          (lib.gcm_starts (lib.gcm_setkey c key).1 true iv aad).1
          (lib.gcm_starts (lib.gcm_setkey d key).1 false iv aad).1
  pub update_ok : (ctx src : Str) → (lib.gcm_update ctx src).0 ≡ 0
  pub update_back :
      (c d src : Str) → Running c d → (lib.gcm_update d (lib.gcm_update c src).2).2 ≡ src
  pub update_running :
      (c d src : Str)
      → Running c d
      → length src % 16 ≡ 0
      → Running (lib.gcm_update c src).1 (lib.gcm_update d (lib.gcm_update c src).2).1
  pub update_ended :
      (c d src : Str)
      → Running c d
      → Ended (lib.gcm_update c src).1 (lib.gcm_update d (lib.gcm_update c src).2).1
  pub finish_ok : (ctx : Str) → (lib.gcm_finish ctx).0 ≡ 0
  pub finish_tag : (c d : Str) → Ended c d → (lib.gcm_finish c).2 ≡ (lib.gcm_finish d).2

infixl 5 ◌>>=◌
abbrev pub ◌>>=◌ : {A B : Type 0} → Option A → (A → Option B) → Option B
none >>= k = none
some a >>= k = k a

-- The operation and what is written after a call that succeeds.
unfoldable pub succeeds : Outcome → Option (Operation × Written)
succeeds (returns zero op w) = some (op, w)
succeeds (returns (suc code) op w) = none
succeeds (refuses code) = none
succeeds panics = none

-- The calls of TEE_AEUpdate for pieces of data, with what they write.
unfoldable pub feed : Library → List Str → Operation → Option (Operation × List Str)
feed lib [] op = some (op, [])
feed lib (s ∷ ss) op = do
  (op1, w) ← succeeds (ae_update lib (some op) (bytes s) true true)
  out ← w.dest
  (op2, outs) ← feed lib ss op1
  some (op2, out ∷ outs)

-- TEE_AEInit and TEE_AEUpdateAAD
unfoldable pub begin : Library → Operation → Str → Str → Option Operation
begin lib op nonce aad = do
  (op1, _) ← succeeds (ae_init lib (some op) (bytes nonce) 128 (length aad))
  (op2, _) ← succeeds (ae_update_aad lib (some op1) (bytes aad))
  some op2

-- An encryption: the pieces and the last one, and the tag.
unfoldable pub encrypt_message :
    Library → Operation → Str → Str → List Str → Str → Option (List Str × Str × Str)
encrypt_message lib op nonce aad ss last = do
  op1 ← begin lib op nonce aad
  (op2, outs) ← feed lib ss op1
  (op3, w) ← succeeds (ae_encrypt_final lib (some op2) (bytes last) true true true (some 16))
  out ← w.dest
  tag ← w.tag
  some (outs, out, tag)

-- A decryption of the pieces and the last one under a tag.
unfoldable pub decrypt_message :
    Library → Operation → Str → Str → List Str → Str → Str → Option (List Str × Str)
decrypt_message lib op nonce aad ss last tag = do
  op1 ← begin lib op nonce aad
  (op2, outs) ← feed lib ss op1
  (op3, w) ← succeeds (ae_decrypt_final lib (some op2) (bytes last) true true (some tag) 16)
  out ← w.dest
  some (outs, out)
