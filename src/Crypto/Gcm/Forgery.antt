-- ===== src/Crypto/Gcm/Forgery.antt =====
-- The tag of TEE_AEDecryptFinal of api/tee-internal-api-cryptlib.c: two runs with two tags.
use ta_ref.Prelude.{
  ℕ, ◌≡◌, ◌≢◌, refl, inl, inr, Bool, true, false, not, ◌&&◌, ◌||◌, Option, none, some,
  if◌then◌else◌, ◌==◌, ltb, arith, take, Bool-cases,
}
use ta_ref.Text.{Str, eq_str}
use ta_ref.Text.Laws.{eq_str_sound}
use ta_ref.Crypto.{
  Library, Operation, Buffer, null, bytes, Outcome, returns, refuses, panics, and_then, success,
  nothing, error_bad_parameters, alg_aes_gcm,
}
use ta_ref.Crypto.Gcm.{
  ae_decrypt_final, ae_decrypt_data, decrypt_ends, gcm_last, with_aad, ae_update_aad,
}

-- What a call wrote to destData, where it returns.
unfoldable pub released : Outcome → Option (Option Str)
released (returns code op w) = some w.dest
released (refuses code) = none
released panics = none

unfoldable pub accepts : Outcome → Bool
accepts (returns code op w) = code == success
accepts (refuses code) = false
accepts panics = false

-- Two runs that write the same to destData, of which one at most is accepted.
unfoldable pub IsBlind : Outcome → Outcome → Type 0
IsBlind a b = (released a ≡ released b) × (accepts a && accepts b ≡ false)

-- A refusal that both runs share.
IsBlind-same : (o : Outcome) → accepts o ≡ false → IsBlind o o
unfolding IsBlind
IsBlind-same o h = (refl, ground arith)

IsBlind-if :
    (c : Bool) (o a b : Outcome)
    → accepts o ≡ false
    → IsBlind a b
    → IsBlind (if c then o else a) (if c then o else b)
IsBlind-if true o a b h k = IsBlind-same o h
IsBlind-if false o a b h k = k

module _ (t1 t2 : Str) (differ : take 16 t1 ≢ take 16 t2) where
  decrypt_ends-IsBlind :
      (op : Operation) (src : Str) (o : Option (Str × Str × Str))
      → IsBlind (decrypt_ends op src t1 o) (decrypt_ends op src t2 o)
  unfolding decrypt_ends IsBlind released accepts
  decrypt_ends-IsBlind op src none = (refl, refl)
  decrypt_ends-IsBlind op src (some (ctx, out, tag)) =
      elim (Bool-cases (eq_str (take 16 t1) (take 16 tag))) [
        | inl one ↦ elim (Bool-cases (eq_str (take 16 t2) (take 16 tag))) [
          | inl two ↦ absurd (
              differ (
                cc (
                  eq_str_sound (take 16 t1) (take 16 tag) one,
                  eq_str_sound (take 16 t2) (take 16 tag) two,
                )))
          | inr two ↦ rw (one, two) (refl, refl)
        ]
        | inr one ↦ elim (Bool-cases (eq_str (take 16 t2) (take 16 tag))) [
          | inl two ↦ rw (one, two) (refl, refl)
          | inr two ↦ rw (one, two) (refl, refl)
        ]
      ]

  ae_decrypt_data-IsBlind :
      (lib : Library) (src : Str) (op : Operation)
      → IsBlind (ae_decrypt_data lib src t1 op) (ae_decrypt_data lib src t2 op)
  unfolding ae_decrypt_data
  ae_decrypt_data-IsBlind lib src op =
      IsBlind-if (ltb op.aegcm_state 2) _ _ _ (unfold accepts in refl)
        (decrypt_ends-IsBlind op src (gcm_last lib op.aegcmctx src))

  and_then-IsBlind :
      (o : Outcome) (f g : Operation → Outcome)
      → ((op : Operation) → IsBlind (f op) (g op))
      → IsBlind (and_then o f) (and_then o g)
  unfolding and_then
  and_then-IsBlind (returns code op w) f g h = h op
  and_then-IsBlind (refuses code) f g h = IsBlind-same (refuses code) (unfold accepts in refl)
  and_then-IsBlind panics f g h = IsBlind-same panics (unfold accepts in refl)

  with_aad-IsBlind :
      (lib : Library) (op : Operation) (f g : Operation → Outcome)
      → ((op' : Operation) → IsBlind (f op') (g op'))
      → IsBlind (with_aad lib op f) (with_aad lib op g)
  unfolding with_aad
  with_aad-IsBlind lib op f g h = elim (Bool-cases (op.aegcm_state == 1)) [
    | inl at_init ↦ rw at_init (and_then-IsBlind (ae_update_aad lib (some op) (null 0)) f g h)
    | inr later ↦ rw later (h op)
  ]

-- For two tags that differ in their first 16 bytes, on any handle, buffers and lengths:
-- TEE_AEDecryptFinal writes the same to destData with the one as with the other, or returns with
-- neither, and it accepts one of them at most.
pub ae_decrypt_final-tags :
    (lib : Library) (o : Option Operation) (src : Buffer) (dest dest_len : Bool) (t1 t2 : Str)
    (tag_len : ℕ)
    → take 16 t1 ≢ take 16 t2
    → (released (ae_decrypt_final lib o src dest dest_len (some t1) tag_len)
        ≡ released (ae_decrypt_final lib o src dest dest_len (some t2) tag_len))
      × (accepts (ae_decrypt_final lib o src dest dest_len (some t1) tag_len)
            && accepts (ae_decrypt_final lib o src dest dest_len (some t2) tag_len)
          ≡ false)
unfolding ae_decrypt_final IsBlind
ae_decrypt_final-tags lib none src dest dest_len t1 t2 tag_len differ =
    IsBlind-same _ (unfold accepts in refl)
ae_decrypt_final-tags lib (some op) (null n) dest dest_len t1 t2 tag_len differ =
    IsBlind-same _ (unfold accepts in refl)
ae_decrypt_final-tags lib (some op) (bytes src) dest dest_len t1 t2 tag_len differ =
    let no : accepts (returns error_bad_parameters op nothing) ≡ false = unfold accepts in refl in
    IsBlind-if (not (op.alg == alg_aes_gcm)) _ _ _ no (
      IsBlind-if (not dest || not dest_len) _ _ _ no (
        IsBlind-if (not (tag_len == 16)) _ _ _ no (
          with_aad-IsBlind t1 t2 differ lib op _ _
            (λ op'. ae_decrypt_data-IsBlind t1 t2 differ lib src op'))))
