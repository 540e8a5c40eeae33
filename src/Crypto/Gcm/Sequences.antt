-- ===== src/Crypto/Gcm/Sequences.antt =====
-- Sequences of calls on a handle of api/tee-internal-api-cryptlib.c.
use ta_ref.Prelude.{
  ℕ, ◌≤◌, ◌<◌, ◌≡◌, ◌≢◌, refl, ◌∙◌, inl, inr, ◌⊎◌, true, List, [], ◌∷◌, some, arith,
}
use ta_ref.Crypto.{
  Library, Operation, Buffer, null, bytes, Outcome, Written, returns, refuses, panics, success,
  has_flag, set_flag, handle_flag_key_set, mode_digest,
}
use ta_ref.Crypto.Handle.{allocate_operation, allocate_zeroed, zeroed}
use ta_ref.Crypto.Gcm.{ae_init, ae_nonce, ae_setkey}
use ta_ref.Crypto.Gcm.States.{Call, run_call, run_calls, Follows, run_call-Follows}

-- The state is one of 0 to GCM_ST_FINAL, and not 0 only with a key.
pub record IsValid (op : Operation) : Type 0 where
  pub bounded : op.aegcm_state ≤ 4
  pub keyed : (op.aegcm_state ≡ 0) ⊎ (has_flag handle_flag_key_set op.flags ≡ true)

-- What stays through calls.
pub record Stays (op op' : Operation) : Type 0 where
  pub mode_stays : op'.mode ≡ op.mode
  pub alg_stays : op'.alg ≡ op.alg
  pub started_stays : (op.aegcm_state ≡ 0) ⊎ (0 < op'.aegcm_state)

keeps_key :
    (flags flags' : ℕ)
    → has_flag handle_flag_key_set flags ≡ true
    → (flags' ≡ flags) ⊎ (flags' ≡ set_flag handle_flag_key_set flags)
    → has_flag handle_flag_key_set flags' ≡ true
unfolding set_flag
keeps_key flags flags' h k = ground arith

Follows-IsValid : (op op' : Operation) → Follows op op' → IsValid op → IsValid op'
Follows-IsValid op op' f v = ground (arith, keeps_key op.flags op'.flags)

Follows-Stays : (a b c : Operation) → Follows a b → Stays b c → Stays a c
Follows-Stays a b c f s = ground arith

-- The first call returns, refuses the handle, or panics.
Outcome-cases :
    (o : Outcome)
    → ((code : ℕ) × (op : Operation) × (w : Written) × (o ≡ returns code op w))
      ⊎ (((code : ℕ) × (o ≡ refuses code)) ⊎ (o ≡ panics))
Outcome-cases (returns code op w) = inl (code, op, w, refl)
Outcome-cases (refuses code) = inr (inl (code, refl))
Outcome-cases panics = inr (inr refl)

run_calls-IsValid :
    (lib : Library) (cs : List Call) (op op' : Operation)
    → run_calls lib cs op ≡ some op'
    → (IsValid op → IsValid op') × Stays op op'
unfolding run_calls
run_calls-IsValid lib [] op op' h = (λ v. ground arith, ground arith)
run_calls-IsValid lib (c ∷ cs) op op' h = elim (Outcome-cases (run_call lib c op)) [
  | inl (code, op1, w, e) ↦
      let f = run_call-Follows lib op op1 code w c e in
      let (v', s) = run_calls-IsValid lib cs op1 op' (ground arith) in
      (λ v. v' (Follows-IsValid op op1 f v), Follows-Stays op op1 op' f s)
  | inr (inl (code, e)) ↦ run_calls-IsValid lib cs op op' (ground arith)
  | inr (inr e) ↦ absurd (ground arith)
]

-- After TEE_AllocateOperation for another mode than digests, and any calls on the handle of which none
-- panics, the mode and the algorithm are those of the allocation, the state of the authenticated
-- encryption is one of 0 to GCM_ST_FINAL, and where it is not 0 a key is set.
pub run_calls-allocated :
    (lib : Library) (memory : Operation) (algorithm mode size : ℕ) (cs : List Call)
    (op op' : Operation)
    → mode ≢ mode_digest
    → allocate_operation lib (some memory) algorithm mode size ≡ (success, some op)
    → run_calls lib cs op ≡ some op'
    → IsValid op' × (op'.mode ≡ mode) × (op'.alg ≡ algorithm)
unfolding allocate_operation allocate_zeroed zeroed
run_calls-allocated lib memory algorithm mode size cs op op' other made runs =
    let fresh : (op.aegcm_state ≡ 0) × (op.mode ≡ mode) × (op.alg ≡ algorithm) = ground arith in
    let (v, s) = run_calls-IsValid lib cs op op' runs in
    (
      v (record { bounded = omega arith; keyed = inl (fresh.0) }),
      s.mode_stays ∙ fresh.1,
      s.alg_stays ∙ fresh.2,
    )

ae_init-starts :
    (lib : Library) (op op1 : Operation) (w : Written) (nonce : Buffer) (t a : ℕ)
    → ae_init lib (some op) nonce t a ≡ returns success op1 w
    → op1.aegcm_state ≡ 1
unfolding ae_init ae_nonce ae_setkey
ae_init-starts lib op op1 w (null n) t a h = ground arith
ae_init-starts lib op op1 w (bytes nonce) t a h = ground arith

ae_init-refuses :
    (lib : Library) (op op' : Operation) (w : Written) (nonce : Buffer) (t a code : ℕ)
    → 0 < op.aegcm_state
    → ae_init lib (some op) nonce t a ≡ returns code op' w
    → (code ≢ success) × (op' ≡ op)
unfolding ae_init ae_nonce ae_setkey
ae_init-refuses lib op op' w (null n) t a code started h = ground arith
ae_init-refuses lib op op' w (bytes nonce) t a code started h = ground arith

-- Once TEE_AEInit has succeeded on a handle, it does not succeed again after any calls on the handle, and
-- leaves the operation as it is; also after TEE_AEEncryptFinal or TEE_AEDecryptFinal.
pub ae_init_once :
    (lib : Library) (cs : List Call) (op op1 op2 op3 : Operation) (w w' : Written)
    (nonce nonce' : Buffer) (t a t' a' code : ℕ)
    → ae_init lib (some op) nonce t a ≡ returns success op1 w
    → run_calls lib cs op1 ≡ some op2
    → ae_init lib (some op2) nonce' t' a' ≡ returns code op3 w'
    → (code ≢ success) × (op3 ≡ op2)
ae_init_once lib cs op op1 op2 op3 w w' nonce nonce' t a t' a' code first runs again =
    let (_, s) = run_calls-IsValid lib cs op1 op2 runs in
    let started = ae_init-starts lib op op1 w nonce t a first in
    ae_init-refuses lib op2 op3 w' nonce' t' a' code (ground arith) again
