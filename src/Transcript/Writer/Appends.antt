-- ===== src/Transcript/Writer/Appends.antt =====
-- What an append to the file leaves in it, whichever of its calls fail.
use code_assist_harness.Prelude.{
  ℕ, zero, suc, ◌+◌, ◌≤◌, Option, none, some, Bool, true, false, List, [], ◌∷◌, ◌++◌, length, take,
  drop, append-nil, append_assoc, ◌≡◌, ◌≢◌, refl, sym, ap, ◌∙◌, ◌⊎◌, inl, inr, arith, Option-cases,
  Bool-cases,
}
use code_assist_harness.Transcript.Writer.{
  PersistenceFailureCode, transcript_write_failed, transcript_flush_failed,
  TranscriptFileOperations, OpenFile, called, write_all, rollback_partial_append, append_and_flush,
}

take-drop : (k : ℕ) (bs : List ℕ) → take k bs ++ drop k bs ≡ bs
take-drop zero bs = refl
take-drop (suc k) [] = refl
take-drop (suc k) (b ∷ bs) = ap (λ cs. b ∷ cs) (take-drop k bs)

length-drop : (k : ℕ) (bs : List ℕ) → length (drop k bs) ≤ length bs
length-drop zero bs = omega arith
length-drop (suc k) [] = omega arith
length-drop (suc k) (b ∷ bs) = omega (arith, length-drop k bs)

take-append : (xs ys : List ℕ) → take (length xs) (xs ++ ys) ≡ xs
take-append [] ys = refl
take-append (x ∷ xs) ys = ap (λ zs. x ∷ zs) (take-append xs ys)

-- A call of `write` that ends the loop: it raises, or makes no progress.
abbrev pub IsRefused : TranscriptFileOperations → ℕ → List ℕ → Type 0
IsRefused operations n bs = (operations.write n bs ≡ none) ⊎ (operations.write n bs ≡ some 0)

-- The loop has written everything, or what stands before the bytes of a refused call.
abbrev pub Writes : TranscriptFileOperations → List ℕ → List ℕ → OpenFile × Bool → Type 0
Writes operations before bs r =
    (r.1 ≡ true) × (r.0.bytes ≡ before ++ bs)
    ⊎ ((written : List ℕ) × (rest : List ℕ) × (n : ℕ) × (r.1 ≡ false)
        × (bs ≡ written ++ rest)
        × (rest ≢ [])
        × IsRefused operations n rest
        × (r.0.bytes ≡ before ++ written))

module _ (operations : TranscriptFileOperations) where
  refused_at :
      (d : OpenFile) (b : ℕ) (bs : List ℕ)
      → IsRefused operations d.calls (b ∷ bs)
      → Writes operations d.bytes (b ∷ bs) (called d, false)
  refused_at d b bs h =
      inr ([], b ∷ bs, d.calls, refl, refl, ground arith, h, sym (append-nil d.bytes))

  round :
      (d : OpenFile) (b k : ℕ) (bs : List ℕ) (r : OpenFile × Bool)
      → Writes operations (d.bytes ++ b ∷ take k bs) (drop k bs) r
      → Writes operations d.bytes (b ∷ bs) r
  round d b k bs r (inl (t, e)) = inl (
    t,
    e
        ∙ append_assoc d.bytes (b ∷ take k bs) (drop k bs)
        ∙ ap (λ cs. d.bytes ++ b ∷ cs) (take-drop k bs),
  )
  round d b k bs r (inr (written, rest, n, f, s, ne, x, e)) = inr (
    b ∷ take k bs ++ written,
    rest,
    n,
    f,
    ap (λ cs. b ∷ cs)
        (sym (take-drop k bs)
          ∙ ap (λ cs. take k bs ++ cs) s
          ∙ sym (append_assoc (take k bs) written rest)),
    ne,
    x,
    e ∙ append_assoc d.bytes (b ∷ take k bs) written,
  )

  -- With a round for each byte the loop ends: every byte is written, or a call is refused and what
  -- stands before its bytes is written.
  pub write_all-Writes :
      (fuel : ℕ) (bs : List ℕ) (d : OpenFile)
      → length bs ≤ fuel
      → Writes operations d.bytes bs (write_all operations fuel bs d)
  unfolding write_all
  write_all-Writes fuel [] d h = inl (refl, sym (append-nil d.bytes))
  write_all-Writes zero (b ∷ bs) d h = absurd (omega arith)
  write_all-Writes (suc fuel) (b ∷ bs) d h =
      elim (Option-cases (operations.write d.calls (b ∷ bs))) [
        | inl e ↦ rw (e, write_all) (refused_at d b bs (inl e))
        | inr (zero, e) ↦ rw (e, write_all) (refused_at d b bs (inr e))
        | inr (suc k, e) ↦
            let written : OpenFile = record {
              bytes = d.bytes ++ b ∷ take k bs;
              calls = d.calls + 1;
            } in
            rw (e, write_all)
              (round d b k bs (write_all operations fuel (drop k bs) written)
                (write_all-Writes fuel (drop k bs) written (omega (arith, length-drop k bs, h))))
      ]

-- The file after an append that ends without an exception, or with one: what was there before is
-- still in front, and nothing is left behind it if the file can be truncated.
abbrev pub Appends :
    TranscriptFileOperations → List ℕ → List ℕ → Option PersistenceFailureCode × OpenFile → Type 0
Appends operations before line r =
    (r.0 ≡ none) × (r.1.bytes ≡ before ++ line)
    ⊎ ((code : PersistenceFailureCode) × (left : List ℕ) × (r.0 ≡ some code)
        × (r.1.bytes ≡ before ++ left)
        × (((n : ℕ) → operations.truncate n ≡ true) → left ≡ []))

module _ (operations : TranscriptFileOperations) where
  rolled_back :
      (code : PersistenceFailureCode) (before left line : List ℕ) (d : OpenFile)
      → d.bytes ≡ before ++ left
      → Appends operations before line
          (some code, rollback_partial_append operations (length before) d)
  unfolding rollback_partial_append
  rolled_back code before left line d e = elim (Bool-cases (operations.truncate d.calls)) [
    | inl t ↦ inr (
      code,
      [],
      refl,
      rw t (ap (take (length before)) e ∙ take-append before left ∙ sym (append-nil before)),
      λ _. refl,
    )
    | inr f ↦ inr (code, left, refl, rw f e, λ all. absurd (ground (arith, all d.calls, f)))
  ]

  after_writing :
      (line : List ℕ) (d : OpenFile) (r : OpenFile × Bool)
      → write_all operations (length line) line (called d) ≡ r
      → operations.seek d.calls ≡ true
      → Writes operations d.bytes line r
      → Appends operations d.bytes line (append_and_flush operations line d)
  unfolding append_and_flush
  after_writing line d (w, ok) e s (inr (written, rest, n, f, j, ne, x, h)) =
      rw (e, s, f) (rolled_back transcript_write_failed d.bytes written line w h)
  after_writing line d (w, ok) e s (inl (t, h)) = elim (Bool-cases (operations.flush w.calls)) [
    | inl y ↦ rw (e, s, t, y) (inl (refl, h))
    | inr y ↦ rw (e, s, t, y) (rolled_back transcript_flush_failed d.bytes line line (called w) h)
  ]

  -- Whichever of its calls fail, an append adds the whole line or reports a failure; after a failure
  -- the file still begins with what it held, and it holds no more when truncation works.
  pub append_and_flush-Appends :
      (line : List ℕ) (d : OpenFile)
      → Appends operations d.bytes line (append_and_flush operations line d)
  append_and_flush-Appends line d = elim (Bool-cases (operations.seek d.calls)) [
    | inl s ↦
        after_writing line d (write_all operations (length line) line (called d)) refl s
          (write_all-Writes operations (length line) line (called d) (omega arith))
    | inr s ↦
        unfold append_and_flush in
        rw s (inr (transcript_write_failed, [], refl, sym (append-nil d.bytes), λ _. refl))
  ]
