-- ===== src/Repository/Bound.antt =====
-- What an act that answers has come through.
use code_assist_harness.Prelude.{Bool, true, false, ◌≡◌, refl, sym, ap, ◌∙◌, inl, inr, arith}
use code_assist_harness.Repository.{
  RepositoryAccessErrorCode, found, AdmissionState, Act, give, refuse, ◌>>=◌, ◌>>◌, refuse_if,
}
use code_assist_harness.Repository.Budgets.{bind-cases}

pub found_bind :
    {P A B : Type 0} (m : Act P A) (k : A → Act P B) (s t : AdmissionState P) (b : B)
    → (m >>= k) s ≡ (t, found b)
    → (a : A) × (u : AdmissionState P) × (m s ≡ (u, found a)) × (k a u ≡ (t, found b))
found_bind m k s t b h = elim (bind-cases m k s) [
  | inl (a, e, f) ↦ (a, (m s).0, ap (λ r. ((m s).0, r)) e, sym f ∙ h)
  | inr (inl (code, f)) ↦ absurd (ground (arith, f, h))
  | inr (inr f) ↦ absurd (ground (arith, f, h))
]

pub found_then :
    {P B : Type 0} (test : Bool) (code : RepositoryAccessErrorCode) (k : Act P B)
    (s t : AdmissionState P) (b : B)
    → (refuse_if test code >> k) s ≡ (t, found b)
    → (test ≡ false) × (k s ≡ (t, found b))
unfolding ◌>>◌ ◌>>=◌ refuse_if refuse give
found_then true code k s t b h = absurd (ground (arith, h))
found_then false code k s t b h = (refl, h)

pub found_give :
    {P A : Type 0} (a : A) (s t : AdmissionState P) (b : A) → give a s ≡ (t, found b) → b ≡ a
unfolding give
found_give a s t b h = ground (arith, h)
