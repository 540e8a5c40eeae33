-- ===== src/Profiler/Laws.antt =====
-- The buffer of profiler/profiler.c: which events fit, and what it holds after them.
use ta_ref.Prelude.{
  ==_iff, ◌↔◌, ℕ, zero, suc, ◌+◌, ◌≤◌, ◌<◌, ◌≡◌, refl, ◌∙◌, List, [], ◌∷◌, none, some, arith,
  length, map,
}
use native.Mathlib.Decide.{dec_lt}
use ta_ref.Profiler.{
  perf_slots, Data, Header, Recorder, Event, set_slot, entry, write_entry, profile_func, profile,
}

-- The n records from number i on.
unfoldable pub read_from : ℕ → ℕ → (ℕ → Data) → List Data
read_from i zero slots = []
read_from i (suc n) slots = slots i ∷ read_from (suc i) n slots

pub set_slot-same {ℓ} : {A : Type ℓ} (slots : ℕ → A) (i : ℕ) (v : A) → set_slot slots i v i ≡ v
unfolding set_slot
set_slot-same slots i v = rw ((==_iff i i).1 refl) refl

pub set_slot-other {ℓ} :
    {A : Type ℓ} (slots : ℕ → A) (i : ℕ) (v : A) (j : ℕ) → j < i → set_slot slots i v j ≡ slots j
unfolding set_slot
set_slot-other slots i v j h = ground arith

-- What the events add to a recorder with this header.
pub record IsRecorded (h : Header) (slots : ℕ → Data) (es : List Event) (r : Recorder)
    : Type 0 where
  pub counted : r.head ≡ some (record h { idx = h.idx + length es })
  pub recorded : read_from h.idx (length es) r.slots ≡ map (entry h.start) es
  pub kept : (j : ℕ) → j < h.idx → r.slots j ≡ slots j

profile-step :
    (e : Event) (es : List Event) (h : Header) (slots : ℕ → Data)
    → h.idx < perf_slots
    → profile (e ∷ es) (record { head = some h; slots = slots })
      ≡ profile es (record {
        head = some (record h { idx = h.idx + 1 });
        slots = set_slot slots h.idx (entry h.start e);
      })
unfolding profile profile_func write_entry
profile-step e es h slots less = ground arith

profile-full :
    (e : Event) (es : List Event) (h : Header) (slots : ℕ → Data)
    → perf_slots ≤ h.idx
    → profile (e ∷ es) (record { head = some h; slots = slots }) ≡ none
unfolding profile profile_func write_entry
profile-full e es h slots less = ground arith

IsRecorded-cons :
    (e : Event) (es : List Event) (h : Header) (slots : ℕ → Data) (r : Recorder)
    → IsRecorded (record h { idx = h.idx + 1 }) (set_slot slots h.idx (entry h.start e)) es r
    → IsRecorded h slots (e ∷ es) r
unfolding read_from
IsRecorded-cons e es h slots r rec = record {
  counted = rec.counted ∙ ground arith;
  recorded = ground (
    arith,
    rec.recorded,
    rec.kept h.idx (omega arith),
    set_slot-same slots h.idx (entry h.start e),
  );
  kept = λ j less. rec.kept j (omega arith) ∙ set_slot-other slots h.idx (entry h.start e) j less;
}

-- As long as the events fit into perf_buffer, each adds one record, in order, and the idx of the header
-- counts them; the records before are kept.
pub profile_lem :
    (es : List Event) (h : Header) (slots : ℕ → Data)
    → h.idx + length es ≤ perf_slots
    → (r : Recorder) × (profile es (record { head = some h; slots = slots }) ≡ some r)
      × IsRecorded h slots es r
unfolding read_from profile
profile_lem [] h slots fits = (
  record { head = some h; slots = slots },
  refl,
  record { counted = ground arith; recorded = refl; kept = λ j less. refl },
)
profile_lem (e ∷ es) h slots fits =
    let (r, runs, rec) =
      profile_lem es (record h { idx = h.idx + 1 }) (set_slot slots h.idx (entry h.start e))
        (omega arith) in
    (r, profile-step e es h slots (omega arith) ∙ runs, IsRecorded-cons e es h slots r rec)

overruns :
    (es : List Event) (h : Header) (slots : ℕ → Data)
    → h.idx ≤ perf_slots
    → perf_slots < h.idx + length es
    → profile es (record { head = some h; slots = slots }) ≡ none
overruns [] h slots fits more = absurd (omega arith)
overruns (e ∷ es) h slots fits more = elim (dec_lt h.idx perf_slots) [
  | yes less ↦
      profile-step e es h slots less
      ∙ overruns es (record h { idx = h.idx + 1 }) (set_slot slots h.idx (entry h.start e))
          (omega arith) (omega arith)
  | no full ↦ profile-full e es h slots (omega arith)
]

-- The events write behind the end of perf_buffer exactly when there are more of them than records fit.
pub profile_overruns :
    (es : List Event) (h : Header) (slots : ℕ → Data)
    → h.idx ≤ perf_slots
    → (profile es (record { head = some h; slots = slots }) ≡ none)
      ↔ (perf_slots < h.idx + length es)
profile_overruns es h slots fits = (
  λ overrun. elim (dec_lt perf_slots (h.idx + length es)) [
    | yes more ↦ more
    | no fewer ↦
        let (r, runs, rec) = profile_lem es h slots (omega arith) in absurd (cc (runs, overrun))
  ],
  overruns es h slots fits,
)
