-- ===== src/Crypto/Digest/Laws.antt =====
-- Digests of data in pieces, by api/tee-internal-api-cryptlib.c.
use ta_ref.Prelude.{
  ℕ, ◌≤◌, ◌≡◌, refl, sym, ap, ◌∙◌, true, List, [], ◌∷◌, ◌++◌, Option, none, some, arith,
}
use ta_ref.Text.{Str}
use ta_ref.Crypto.{
  Library, Operation, bytes, returns, refuses, panics, nothing, mode_digest, alg_sha256,
}
use ta_ref.Crypto.Digest.{digest_update, digest_do_final, digest_chunk, digest_finish, no_chunk}

-- What SHA-3 documents of sha3_update: data can be passed in pieces.
pub record Sha3Laws (lib : Library) : Type 0 where
  pub update_nothing : (ctx : Str) → lib.sha3_update ctx [] ≡ ctx
  pub update_pieces :
      (ctx s t : Str) → lib.sha3_update (lib.sha3_update ctx s) t ≡ lib.sha3_update ctx (s ++ t)

unfoldable pub concat : List Str → Str
concat [] = []
concat (s ∷ ss) = s ++ concat ss

-- The operation after calls of TEE_DigestUpdate.
unfoldable pub digest_all : Library → List Str → Operation → Option Operation
digest_all lib [] op = some op
digest_all lib (s ∷ ss) op = elim (digest_update lib (some op) s) [
  | returns code op' w ↦ digest_all lib ss op'
  | refuses code ↦ none
  | panics ↦ none
]

module _ (lib : Library) (laws : Sha3Laws lib) where
  digest_update_lem :
      (op : Operation) (s : Str)
      → op.mode ≡ mode_digest
      → op.alg ≡ alg_sha256
      → digest_update lib (some op) s
        ≡ returns 0 (record op { ctx = lib.sha3_update op.ctx s }) nothing
  unfolding digest_update
  digest_update_lem op s m a = ground arith

  digest_do_final_lem :
      (op : Operation) (s : Str) (n : ℕ)
      → op.mode ≡ mode_digest
      → op.alg ≡ alg_sha256
      → 32 ≤ n
      → digest_do_final lib (some op) (bytes s) true n
        ≡ digest_finish lib op (lib.sha3_update op.ctx s)
  unfolding digest_do_final digest_chunk no_chunk
  digest_do_final_lem op [] n m a room = rw (laws.update_nothing op.ctx) (ground arith)
  digest_do_final_lem op (c ∷ s) n m a room = ground arith

  digest_all_lem :
      (ss : List Str) (op : Operation)
      → op.mode ≡ mode_digest
      → op.alg ≡ alg_sha256
      → digest_all lib ss op ≡ some (record op { ctx = lib.sha3_update op.ctx (concat ss) })
  unfolding digest_all concat
  digest_all_lem [] op m a =
      ap (λ c. let op' : Operation = record op { ctx = c } in some op')
        (sym (laws.update_nothing op.ctx))
  digest_all_lem (s ∷ ss) op m a =
      let op1 : Operation = record op { ctx = lib.sha3_update op.ctx s } in
      rw (digest_update_lem op s m a, digest_all)
        (digest_all_lem ss op1 m a
          ∙ ap (λ c. let op' : Operation = record op { ctx = c } in some op')
              (laws.update_pieces op.ctx s (concat ss)))

finish_same :
    (lib : Library) (op : Operation) (ctx c : Str)
    → digest_finish lib (record op { ctx = ctx }) c ≡ digest_finish lib op c
unfolding digest_finish
finish_same lib op ctx c = refl

-- If sha3_update takes data in pieces, then on a handle for digests the calls of TEE_DigestUpdate for any
-- pieces do not panic, and TEE_DigestDoFinal with the last piece and room for 32 bytes then returns what
-- it returns on the handle at once for all pieces joined: the same result, hash and operation.
pub digest_do_final-pieces :
    (lib : Library) (op : Operation) (ss : List Str) (last : Str) (n : ℕ)
    → Sha3Laws lib
    → op.mode ≡ mode_digest
    → op.alg ≡ alg_sha256
    → 32 ≤ n
    → (op' : Operation) × (digest_all lib ss op ≡ some op')
      × (digest_do_final lib (some op') (bytes last) true n
          ≡ digest_do_final lib (some op) (bytes (concat ss ++ last)) true n)
digest_do_final-pieces lib op ss last n laws m a room =
    let op' : Operation = record op { ctx = lib.sha3_update op.ctx (concat ss) } in
    (
      op',
      digest_all_lem lib laws ss op m a,
      digest_do_final_lem lib laws op' last n m a room
          ∙ (finish_same lib op (lib.sha3_update op.ctx (concat ss)) _
              ∙ ap (digest_finish lib op) (laws.update_pieces op.ctx (concat ss) last)
              ∙ sym (digest_do_final_lem lib laws op (concat ss ++ last) n m a room)),
    )
