-- ===== src/Crypto/Gcm/RoundTrip/Laws.antt =====
-- What a decryption gives back of an encryption, by api/tee-internal-api-cryptlib.c.
use ta_ref.Prelude.{
  ◌%◌, ℕ, ◌≤◌, ◌≡◌, refl, ap, ◌∙◌, true, List, some, ◌==◌, arith, length, take, all,
}
use ta_ref.Text.{Str}
use ta_ref.Crypto.{
  Library, Operation, has_flag, handle_flag_key_set, mode_encrypt, mode_decrypt, alg_aes_gcm,
}
use ta_ref.Crypto.Gcm.RoundTrip.{GcmLaws, succeeds, encrypt_message, decrypt_message}
use ta_ref.Crypto.Gcm.RoundTrip.Steps.{
  take_twice, begin_lem, ae_encrypt_final_lem, ae_decrypt_final_lem, feed_back, started_running,
}

-- A handle with a key on which TEE_AEInit was not called.
pub record IsFresh (op : Operation) (mode : ℕ) : Type 0 where
  pub for_mode : op.mode ≡ mode
  pub for_gcm : op.alg ≡ alg_aes_gcm
  pub unstarted : op.aegcm_state ≡ 0
  pub with_key : has_flag handle_flag_key_set op.flags ≡ true

-- If GCM is as mbed TLS documents it, a handle for encryption and one for decryption with the same key
-- take any message through: for a nonce of 16 bytes and additional data of at most 16, TEE_AEInit,
-- TEE_AEUpdateAAD, TEE_AEUpdate for any pieces of multiples of 16 bytes and the final call all succeed
-- on both, and from the encrypted pieces and the tag the decryption gives the pieces back.
pub decrypt_message-encrypt_message :
    (lib : Library) (Running Ended : Str → Str → Type 0) (e d : Operation) (nonce aad : Str)
    (ss : List Str) (last : Str)
    → GcmLaws lib Running Ended
    → IsFresh e mode_encrypt
    → IsFresh d mode_decrypt
    → e.aekey ≡ d.aekey
    → length nonce ≡ 16
    → length aad ≤ 16
    → all (λ s. length s % 16 == 0) ss ≡ true
    → (outs : List Str) × (out tag : Str) × (encrypt_message lib e nonce aad ss last
        ≡ some (outs, out, tag))
      × (decrypt_message lib d nonce aad outs out tag ≡ some (ss, last))
unfolding encrypt_message decrypt_message succeeds
decrypt_message-encrypt_message lib Running Ended e d nonce aad ss last laws fe fd same n a whole =
    let iv = take 16 nonce in
    let ce =
      (lib.gcm_starts (lib.gcm_setkey (lib.gcm_init e.aegcmctx) e.aekey).1 (e.mode == mode_encrypt)
        iv aad).1 in
    let cd =
      (lib.gcm_starts (lib.gcm_setkey (lib.gcm_init d.aegcmctx) d.aekey).1 (d.mode == mode_encrypt)
        iv aad).1 in
    let e1 : Operation = record e { aeiv = iv; aegcmctx = ce; aegcm_state = 2 } in
    let d1 : Operation = record d { aeiv = iv; aegcmctx = cd; aegcm_state = 2 } in
    let run : Running ce cd =
      started_running lib laws (lib.gcm_init e.aegcmctx) (lib.gcm_init d.aegcmctx) e.aekey d.aekey
        iv aad (e.mode == mode_encrypt) (d.mode == mode_encrypt) same (ground arith)
        (ground arith) in
    let (e2, d2, outs, there, back, fe2, fd2, run2) =
      feed_back lib laws ss e1 d1 (record { gcm = fe.for_gcm; late = omega arith })
        (record { gcm = fd.for_gcm; late = omega arith }) run whole in
    let out = (lib.gcm_update e2.aegcmctx last).2 in
    let tag = take 16 (lib.gcm_finish (lib.gcm_update e2.aegcmctx last).1).2 in
    let ended = laws.update_ended e2.aegcmctx d2.aegcmctx last run2 in
    let (e3, encrypted) = ae_encrypt_final_lem lib laws e2 last fe2 in
    let (d3, decrypted) = ae_decrypt_final_lem lib laws d2 out tag fd2 (
      take_twice 16 (lib.gcm_finish (lib.gcm_update e2.aegcmctx last).1).2
      ∙ ap (take 16) (laws.finish_tag _ _ ended)) in
    (
      outs,
      out,
      tag,
      rw (begin_lem lib laws e nonce aad fe.for_gcm fe.unstarted fe.with_key n a)
          (rw there (rw encrypted refl)),
      rw (begin_lem lib laws d nonce aad fd.for_gcm fd.unstarted fd.with_key n a)
          (rw back (rw decrypted (rw (laws.update_back e2.aegcmctx d2.aegcmctx last run2) refl))),
    )
