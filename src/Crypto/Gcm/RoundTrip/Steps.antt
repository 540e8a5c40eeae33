-- ===== src/Crypto/Gcm/RoundTrip/Steps.antt =====
-- The calls for one message on a handle of api/tee-internal-api-cryptlib.c, one after another.
use ta_ref.Prelude.{
  ◌%◌, ℕ, zero, suc, ◌≤◌, ◌≡◌, refl, ap, Bool, true, false, List, [], ◌∷◌, some, ◌==◌, arith,
  length, take, all,
}
use ta_ref.Text.{Str}
use ta_ref.Text.Laws.{eq_str_refl}
use ta_ref.Crypto.{
  Library, Operation, bytes, returns, nothing, success, has_flag, handle_flag_key_set, mode_encrypt,
  alg_aes_gcm,
}
use ta_ref.Crypto.Gcm.{
  ae_init, ae_nonce, ae_setkey, ae_update_aad, ae_aad, ae_starts, with_aad, ae_update,
  ae_update_data, ae_encrypt_final, ae_encrypt_data, encrypt_ends, ae_decrypt_final,
  ae_decrypt_data, decrypt_ends, gcm_last,
}
use ta_ref.Crypto.Gcm.RoundTrip.{GcmLaws, succeeds, feed, begin}

pub take_twice : (n : ℕ) (s : Str) → take n (take n s) ≡ take n s
take_twice zero s = refl
take_twice (suc n) [] = refl
take_twice (suc n) (c ∷ s) = ap (λ t. c ∷ t) (take_twice n s)

-- A handle between TEE_AEUpdateAAD and the end of its message.
pub record IsFed (op : Operation) : Type 0 where
  pub gcm : op.alg ≡ alg_aes_gcm
  pub late : 2 ≤ op.aegcm_state

decrypt_ends-same :
    (op : Operation) (src tag ctx out check_tag : Str)
    → take 16 tag ≡ take 16 check_tag
    → decrypt_ends op src tag (some (ctx, out, check_tag))
      ≡ returns success
          (record op { aegcmctx = ctx; aegcm_state = 4 })
          (record nothing { dest = some out; dest_len = some (length src) })
unfolding decrypt_ends
decrypt_ends-same op src tag ctx out check_tag same =
    rw same (rw (eq_str_refl (take 16 check_tag)) refl)

module _ (lib : Library) {Running Ended : Str → Str → Type 0}
    (laws : GcmLaws lib Running Ended) where
  ae_update_lem :
      (op : Operation) (s : Str)
      → IsFed op
      → ae_update lib (some op) (bytes s) true true
        ≡ returns success
            (record op { aegcmctx = (lib.gcm_update op.aegcmctx s).1; aegcm_state = 3 })
            (record nothing {
              dest = some (lib.gcm_update op.aegcmctx s).2;
              dest_len = some (length s);
            })
  unfolding ae_update with_aad ae_update_data
  ae_update_lem op s f = ground (arith, laws.update_ok op.aegcmctx s)

  pub started_running :
      (c d key key' iv aad : Str) (encrypts decrypts : Bool)
      → key ≡ key'
      → encrypts ≡ true
      → decrypts ≡ false
      → Running
          (lib.gcm_starts (lib.gcm_setkey c key).1 encrypts iv aad).1
          (lib.gcm_starts (lib.gcm_setkey d key').1 decrypts iv aad).1
  started_running c d key key' iv aad encrypts decrypts same first second =
      rw same (rw first (rw second (laws.starts_running c d key' iv aad)))

  ae_init_lem :
      (op : Operation) (nonce : Str) (a : ℕ)
      → op.alg ≡ alg_aes_gcm
      → op.aegcm_state ≡ 0
      → has_flag handle_flag_key_set op.flags ≡ true
      → length nonce ≡ 16
      → a ≤ 16
      → ae_init lib (some op) (bytes nonce) 128 a
        ≡ returns success
            (record op {
              aegcmctx = (lib.gcm_setkey (lib.gcm_init op.aegcmctx) op.aekey).1;
              aeiv = take 16 nonce;
              aegcm_state = 1;
            })
            nothing
  unfolding ae_init ae_nonce ae_setkey
  ae_init_lem op nonce a gcm fresh key n short =
      ground (arith, laws.setkey_ok (lib.gcm_init op.aegcmctx) op.aekey)

  ae_update_aad_lem :
      (op : Operation) (aad : Str)
      → op.aegcm_state ≡ 1
      → length aad ≤ 16
      → ae_update_aad lib (some op) (bytes aad)
        ≡ returns 0
            (record op {
              aegcmctx = (lib.gcm_starts op.aegcmctx (op.mode == mode_encrypt) op.aeiv aad).1;
              aegcm_state = 2;
            })
            nothing
  unfolding ae_update_aad ae_aad ae_starts
  ae_update_aad_lem op aad initial short =
      ground (arith, laws.starts_ok op.aegcmctx op.aeiv aad (op.mode == mode_encrypt))

  pub begin_lem :
      (op : Operation) (nonce aad : Str)
      → op.alg ≡ alg_aes_gcm
      → op.aegcm_state ≡ 0
      → has_flag handle_flag_key_set op.flags ≡ true
      → length nonce ≡ 16
      → length aad ≤ 16
      → begin lib op nonce aad
        ≡ some (record op {
          aeiv = take 16 nonce;
          aegcmctx =
              (lib.gcm_starts
                (lib.gcm_setkey (lib.gcm_init op.aegcmctx) op.aekey).1
                (op.mode == mode_encrypt)
                (take 16 nonce)
                aad).1;
          aegcm_state = 2;
        })
  unfolding begin succeeds
  begin_lem op nonce aad gcm fresh key n a =
      let op1 : Operation = record op {
        aegcmctx = (lib.gcm_setkey (lib.gcm_init op.aegcmctx) op.aekey).1;
        aeiv = take 16 nonce;
        aegcm_state = 1;
      } in
      rw (ae_init_lem op nonce (length aad) gcm fresh key n a)
        (rw (ae_update_aad_lem op1 aad refl a) refl)

  gcm_last_lem :
      (ctx s : Str)
      → gcm_last lib ctx s
        ≡ some (
          (lib.gcm_finish (lib.gcm_update ctx s).1).1,
          (lib.gcm_update ctx s).2,
          (lib.gcm_finish (lib.gcm_update ctx s).1).2,
        )
  unfolding gcm_last
  gcm_last_lem ctx s = ground (arith, laws.update_ok ctx s, laws.finish_ok (lib.gcm_update ctx s).1)

  pub ae_encrypt_final_lem :
      (op : Operation) (s : Str)
      → IsFed op
      → (op' : Operation) × (ae_encrypt_final lib (some op) (bytes s) true true true (some 16)
          ≡ returns success op' (record {
            dest = some (lib.gcm_update op.aegcmctx s).2;
            dest_len = some (length s);
            tag = some (take 16 (lib.gcm_finish (lib.gcm_update op.aegcmctx s).1).2);
            tag_len = some 16;
          }))
  unfolding ae_encrypt_final with_aad ae_encrypt_data encrypt_ends
  ae_encrypt_final_lem op s f = (
    record op { aegcmctx = (lib.gcm_finish (lib.gcm_update op.aegcmctx s).1).1; aegcm_state = 4 },
    ground (arith, gcm_last_lem op.aegcmctx s),
  )

  pub ae_decrypt_final_lem :
      (op : Operation) (s tag : Str)
      → IsFed op
      → take 16 tag ≡ take 16 (lib.gcm_finish (lib.gcm_update op.aegcmctx s).1).2
      → (op' : Operation) × (ae_decrypt_final lib (some op) (bytes s) true true (some tag) 16
          ≡ returns success op' (record nothing {
            dest = some (lib.gcm_update op.aegcmctx s).2;
            dest_len = some (length s);
          }))
  unfolding ae_decrypt_final with_aad ae_decrypt_data
  ae_decrypt_final_lem op s tag f same = (
    record op { aegcmctx = (lib.gcm_finish (lib.gcm_update op.aegcmctx s).1).1; aegcm_state = 4 },
    ground (
      arith,
      gcm_last_lem op.aegcmctx s,
      decrypt_ends-same op s tag (lib.gcm_finish (lib.gcm_update op.aegcmctx s).1).1
          (lib.gcm_update op.aegcmctx s).2 (lib.gcm_finish (lib.gcm_update op.aegcmctx s).1).2 same,
    ),
  )

  -- Pieces that are fed to an encryption, and what comes out to the decryption that goes with it.
  pub feed_back :
      (ss : List Str) (e d : Operation)
      → IsFed e
      → IsFed d
      → Running e.aegcmctx d.aegcmctx
      → all (λ s. length s % 16 == 0) ss ≡ true
      → (e' d' : Operation) × (outs : List Str) × (feed lib ss e ≡ some (e', outs))
        × (feed lib outs d ≡ some (d', ss))
        × IsFed e'
        × IsFed d'
        × Running e'.aegcmctx d'.aegcmctx
  unfolding feed succeeds
  feed_back [] e d fe fd run whole = (e, d, [], refl, refl, fe, fd, run)
  feed_back (s ∷ ss) e d fe fd run whole =
      let out = (lib.gcm_update e.aegcmctx s).2 in
      let e1 : Operation = record e {
        aegcmctx = (lib.gcm_update e.aegcmctx s).1;
        aegcm_state = 3;
      } in
      let d1 : Operation = record d {
        aegcmctx = (lib.gcm_update d.aegcmctx out).1;
        aegcm_state = 3;
      } in
      let (e', d', outs, there, back, fe', fd', run') =
        feed_back ss e1 d1 (record { gcm = fe.gcm; late = omega arith })
          (record { gcm = fd.gcm; late = omega arith })
          (laws.update_running e.aegcmctx d.aegcmctx s run (ground arith)) (ground arith) in
      (
        e',
        d',
        out ∷ outs,
        rw (ae_update_lem e s fe) (rw there refl),
        rw (ae_update_lem d out fd)
            (rw (laws.update_back e.aegcmctx d.aegcmctx s run) (rw back refl)),
        fe',
        fd',
        run',
      )
