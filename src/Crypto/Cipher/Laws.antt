-- ===== src/Crypto/Cipher/Laws.antt =====
-- Encryption and decryption in pieces by TEE_CipherUpdate of api/tee-internal-api-cryptlib.c.
use ta_ref.Prelude.{
  ◌%◌, ◌≡◌, refl, sym, ap, ◌∙◌, true, false, List, [], ◌∷◌, Option, none, some, ◌==◌, arith, length,
  all,
}
use ta_ref.Text.{Str}
use ta_ref.Crypto.{
  Library, Operation, returns, refuses, panics, nothing, has_flag, handle_flag_key_set,
  mode_encrypt, mode_decrypt, alg_aes_cbc_nopad,
}
use ta_ref.Crypto.Cipher.{cipher_init, cipher_setkey, cipher_update, cipher_crypt}

-- What mbed TLS documents of mbedtls_aes_crypt_cbc: with a context for decryption and the key and vector
-- of an encryption it gives back data whose length is a multiple of 16, and leaves the same vector.
pub record CbcLaws (lib : Library) : Type 0 where
  pub crypt_back :
      (c d key iv src : Str)
      → length src % 16 ≡ 0
      → lib.aes_crypt_cbc
          (lib.aes_setkey d false key)
          false
          iv
          (lib.aes_crypt_cbc (lib.aes_setkey c true key) true iv src).1
        ≡ ((lib.aes_crypt_cbc (lib.aes_setkey c true key) true iv src).0, src)

unfoldable pub prepend : Option Str → Option (List Str) → Option (List Str)
prepend none outs = none
prepend (some out) none = none
prepend (some out) (some outs) = some (out ∷ outs)

-- What calls of TEE_CipherUpdate write for pieces of data.
unfoldable pub cipher_all : Library → List Str → Operation → Option (List Str)
unfolding prepend
cipher_all lib [] op = some []
cipher_all lib (s ∷ ss) op = elim (cipher_update lib (some op) s) [
  | returns code op' w ↦ prepend w.dest (cipher_all lib ss op')
  | refuses code ↦ none
  | panics ↦ none
]

module _ (lib : Library) where
  cipher_encrypt_lem :
      (op : Operation) (s : Str)
      → op.mode ≡ mode_encrypt
      → op.alg ≡ alg_aes_cbc_nopad
      → cipher_update lib (some op) s ≡ cipher_crypt lib op true s
  unfolding cipher_update
  cipher_encrypt_lem op s m a = ground arith

  cipher_decrypt_lem :
      (op : Operation) (s : Str)
      → op.mode ≡ mode_decrypt
      → op.alg ≡ alg_aes_cbc_nopad
      → cipher_update lib (some op) s ≡ cipher_crypt lib op false s
  unfolding cipher_update
  cipher_decrypt_lem op s m a = ground arith

  cipher_all-encrypt :
      (op : Operation) (s : Str) (ss : List Str)
      → op.mode ≡ mode_encrypt
      → op.alg ≡ alg_aes_cbc_nopad
      → cipher_all lib (s ∷ ss) op
        ≡ prepend
            (some (lib.aes_crypt_cbc op.aectx true op.aeiv s).1)
            (cipher_all lib ss (record op { aeiv = (lib.aes_crypt_cbc op.aectx true op.aeiv s).0 }))
  unfolding cipher_all cipher_crypt
  cipher_all-encrypt op s ss m a = rw (cipher_encrypt_lem op s m a, cipher_all) refl

  cipher_all-decrypt :
      (op : Operation) (s : Str) (ss : List Str)
      → op.mode ≡ mode_decrypt
      → op.alg ≡ alg_aes_cbc_nopad
      → cipher_all lib (s ∷ ss) op
        ≡ prepend (some (lib.aes_crypt_cbc op.aectx false op.aeiv s).1) (
            cipher_all lib ss (record op { aeiv = (lib.aes_crypt_cbc op.aectx false op.aeiv s).0 }))
  unfolding cipher_all cipher_crypt
  cipher_all-decrypt op s ss m a = rw (cipher_decrypt_lem op s m a, cipher_all) refl

  crypt_again :
      (laws : CbcLaws lib) (c c' key iv iv' ctx ctx' s : Str)
      → ctx ≡ lib.aes_setkey c true key
      → ctx' ≡ lib.aes_setkey c' false key
      → iv ≡ iv'
      → length s % 16 ≡ 0
      → lib.aes_crypt_cbc ctx' false iv' (lib.aes_crypt_cbc ctx true iv s).1
        ≡ ((lib.aes_crypt_cbc ctx true iv s).0, s)
  crypt_again laws c c' key iv iv' ctx ctx' s ke kd same whole =
      rw ke (rw kd (rw same (laws.crypt_back c c' key iv' s whole)))

  cipher_all_lem :
      (laws : CbcLaws lib) (ss : List Str) (e d : Operation) (c c' key : Str)
      → e.mode ≡ mode_encrypt
      → d.mode ≡ mode_decrypt
      → e.alg ≡ alg_aes_cbc_nopad
      → d.alg ≡ alg_aes_cbc_nopad
      → e.aectx ≡ lib.aes_setkey c true key
      → d.aectx ≡ lib.aes_setkey c' false key
      → e.aeiv ≡ d.aeiv
      → all (λ s. length s % 16 == 0) ss ≡ true
      → (outs : List Str) × (cipher_all lib ss e ≡ some outs) × (cipher_all lib outs d ≡ some ss)
  unfolding cipher_all cipher_crypt
  cipher_all_lem laws [] e d c c' key me md ae ad ke kd iv whole = ([], refl, refl)
  cipher_all_lem laws (s ∷ ss) e d c c' key me md ae ad ke kd iv whole =
      let out = (lib.aes_crypt_cbc e.aectx true e.aeiv s).1 in
      let e1 : Operation = record e { aeiv = (lib.aes_crypt_cbc e.aectx true e.aeiv s).0 } in
      let d1 : Operation = record d { aeiv = (lib.aes_crypt_cbc d.aectx false d.aeiv out).0 } in
      let back : lib.aes_crypt_cbc d.aectx false d.aeiv out
          ≡ ((lib.aes_crypt_cbc e.aectx true e.aeiv s).0, s) =
        crypt_again laws c c' key e.aeiv d.aeiv e.aectx d.aectx s ke kd iv (ground arith) in
      let (outs, there, again) =
        cipher_all_lem laws ss e1 d1 c c' key me md ae ad ke kd (sym (ap (λ p. p.0) back))
          (ground arith) in
      (
        out ∷ outs,
        cipher_all-encrypt e s ss me ae ∙ ap (prepend (some out)) there,
        cipher_all-decrypt d out outs md ad
            ∙ (ap (prepend (some _)) again ∙ ap (λ p. some (p.1 ∷ ss)) back),
      )

-- If CBC is as mbed TLS documents it, then for a handle for encryption and one for decryption with the
-- same key and a nonce of 16 bytes TEE_CipherInit succeeds on both, and TEE_CipherUpdate gives any pieces
-- of multiples of 16 bytes back from their encryption.
pub cipher_all-cipher_all :
    (lib : Library) (e d : Operation) (nonce : Str) (ss : List Str)
    → CbcLaws lib
    → e.mode ≡ mode_encrypt
    → d.mode ≡ mode_decrypt
    → e.alg ≡ alg_aes_cbc_nopad
    → d.alg ≡ alg_aes_cbc_nopad
    → has_flag handle_flag_key_set e.flags ≡ true
    → has_flag handle_flag_key_set d.flags ≡ true
    → e.aekey ≡ d.aekey
    → length nonce ≡ 16
    → all (λ s. length s % 16 == 0) ss ≡ true
    → (e1 d1 : Operation) × (outs : List Str) × (cipher_init lib (some e) nonce
        ≡ returns 0 e1 nothing)
      × (cipher_init lib (some d) nonce ≡ returns 0 d1 nothing)
      × (cipher_all lib ss e1 ≡ some outs)
      × (cipher_all lib outs d1 ≡ some ss)
unfolding cipher_init cipher_setkey
cipher_all-cipher_all lib e d nonce ss laws me md ae ad ke kd same n whole =
    let e1 : Operation = record e {
      aectx = lib.aes_setkey (lib.aes_init e.aectx) true e.aekey;
      aeiv = nonce;
    } in
    let d1 : Operation = record d {
      aectx = lib.aes_setkey (lib.aes_init d.aectx) false d.aekey;
      aeiv = nonce;
    } in
    let (outs, there, back) =
      cipher_all_lem lib laws ss e1 d1 (lib.aes_init e.aectx) (lib.aes_init d.aectx) d.aekey me md
        ae ad (ap (lib.aes_setkey (lib.aes_init e.aectx) true) same) refl refl whole in
    (e1, d1, outs, ground arith, ground arith, there, back)
