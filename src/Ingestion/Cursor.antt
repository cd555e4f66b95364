-- ===== src/Ingestion/Cursor.antt =====
-- The cursor that a round of ingestion leaves.
use stelfin.Prelude.{
  ℕ, suc, ◌≤◌, List, [], ◌∷◌, ◌≡◌, ◌↔◌, inl, inr, refl, ap, ◌∙◌, Result, ok, err, Option, none,
  some, Result-cases, length, take, arith,
}
use stelfin.Text.{Bytes}
use stelfin.Text.Equality.{bytes_eq_refl}
use stelfin.Ingestion.{Error, Record, Ingester, find_cursor, put_cursor, load_cursor, save_cursor}
use stelfin.Ingestion.Apply.{apply, consume, once}
use stelfin.Ingestion.Preserve.{Preserved, apply-preserves}

-- Where a stream resumes behind some records.
abbrev pub resume_at : Bytes → List Record → Bytes
resume_at c [] = c
resume_at c (r ∷ rs) = resume_at r.cursor rs

find_cursor-put :
    (stream c : Bytes) (l : List (Bytes × Bytes))
    → find_cursor stream (put_cursor stream c l) ≡ some c
unfolding find_cursor put_cursor
find_cursor-put stream c [] = rw (bytes_eq_refl stream) refl
find_cursor-put stream c ((s, d) ∷ l) = ground (arith, find_cursor-put stream c l)

load-save : (stream c : Bytes) (i : Ingester) → load_cursor stream (save_cursor stream c i).0 ≡ c
unfolding load_cursor save_cursor
load-save stream c i = rw (find_cursor-put stream c i.cursors, load_cursor) refl

module _ (hash lower : Bytes → Bytes) where
  cursors-Preserved : (l : List (Bytes × Bytes)) → Preserved hash lower (λ i. i.cursors ≡ l)
  cursors-Preserved l = record {
    account_ensured = λ i org v. v;
    asset_ensured = λ i code issuer v. v;
    posted = λ i q id b v e. v;
    remembered = λ i org id v. v;
    released = λ i ts v. v;
  }

  apply-cursors : (r : Record) (i : Ingester) → (apply hash lower r i).0.cursors ≡ i.cursors
  apply-cursors r i =
      apply-preserves hash lower (λ j. j.cursors ≡ i.cursors) (cursors-Preserved i.cursors) r i refl

  load-apply :
      (stream : Bytes) (r : Record) (i : Ingester)
      → load_cursor stream (apply hash lower r i).0 ≡ load_cursor stream i
  unfolding load_cursor
  load-apply stream r i = rw (apply-cursors r i, load_cursor) refl

  -- A round over some records: how many were applied and had their cursor kept, and the error of the
  -- one that was not, behind which none is looked at.
  pub data Consumed (stream : Bytes)
      : Ingester → List Record → Ingester → ℕ → Option Error → Type 0 where
    finished : {i : Ingester} → Consumed stream i [] i 0 none
    stopped :
        {i i' : Ingester} {r : Record} {rs : List Record} {e : Error}
        → apply hash lower r i ≡ (i', err e)
        → Consumed stream i (r ∷ rs) i' 0 (some e)
    applied :
        {i i' i'' : Ingester} {r : Record} {rs : List Record} {n : ℕ} {error : Option Error}
        → apply hash lower r i ≡ (i', ok tt)
        → Consumed stream (save_cursor stream r.cursor i').0 rs i'' n error
        → Consumed stream i (r ∷ rs) i'' (suc n) error

  -- A round over `records` that consumes `n` of them and stops at `error`, if at any.
  pub record Resumes (stream : Bytes) (i i' : Ingester) (records : List Record) (n : ℕ)
      (error : Option Error) : Type 0 where
    pub consumed : Consumed stream i records i' n error
    pub within : n ≤ length records
    pub resumes : load_cursor stream i' ≡ resume_at (load_cursor stream i) (take n records)
    pub all_or_error : (error ≡ none) ↔ (n ≡ length records)

  consume-Resumes :
      (stream : Bytes) (rs : List Record) (i : Ingester)
      → Resumes stream i
          (consume hash lower stream rs i).0
          rs
          (consume hash lower stream rs i).1.0
          (consume hash lower stream rs i).1.1
  unfolding consume
  consume-Resumes stream [] i = record {
    consumed = finished;
    within = ground arith;
    resumes = refl;
    all_or_error = (λ h. refl, λ h. refl);
  }
  consume-Resumes stream (r ∷ rs) i = elim (Result-cases (apply hash lower r i).1) [
    | inr (e, q) ↦
        rw (q, consume)
          (record {
            consumed = stopped (ap (λ x. ((apply hash lower r i).0, x)) q);
            within = ground arith;
            resumes = load-apply stream r i;
            all_or_error = (λ h. cc, λ h. absurd (omega arith));
          })
    | inl (_, q) ↦
        let i' = (save_cursor stream r.cursor (apply hash lower r i).0).0 in
        let rest = consume-Resumes stream rs i' in
        rw (q, consume)
          (record {
            consumed = applied (ap (λ x. ((apply hash lower r i).0, x)) q) rest.consumed;
            within = omega (arith, rest.within);
            resumes =
                rest.resumes
                ∙ ap (λ c. resume_at c (take (consume hash lower stream rs i').1.0 rs))
                    (load-save stream r.cursor (apply hash lower r i).0);
            all_or_error =
                (λ h. ap suc (rest.all_or_error.0 h), λ h. rest.all_or_error.1 (omega arith));
          })
  ]

  -- When the source returned records, a round applies them in order, each to the state that the one
  -- before it and its saved cursor left, and counts those applied without an error. It stops at the
  -- first record whose application fails, reports that very error and touches nothing further; without
  -- an error it has applied them all. The cursor it leaves is that of the last record applied, or the
  -- one it started from when there is none, so the next round resumes at the first record not applied.
  pub once-Resumes :
      (stream : Bytes) (fetch : Bytes → Result Error (List Record)) (i : Ingester)
      (records : List Record)
      → fetch (load_cursor stream i) ≡ ok records
      → Resumes stream i
          (once hash lower stream fetch i).0
          records
          (once hash lower stream fetch i).1.0
          (once hash lower stream fetch i).1.1
  unfolding once
  once-Resumes stream fetch i records h = rw (h, once) (consume-Resumes stream records i)
