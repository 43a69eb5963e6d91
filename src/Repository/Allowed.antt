-- ===== src/Repository/Allowed.antt =====
-- What an admitted path has been tested for.
use code_assist_harness.Prelude.{Bool, false, List, Text, ◌≡◌}
use code_assist_harness.Workspace.{label}
use code_assist_harness.Repository.{
  is_hard_denied_path, AdmittedRepositoryPath, RepositoryPathKind, found, AdmissionState,
  ScopedPolicy,
}
use code_assist_harness.Repository.Lines.{PatternLibrary}
use code_assist_harness.Repository.Admission.{RepositoryHost, resolve_requested}
use code_assist_harness.Repository.Policies.{prepare_ignore_view, view_of, ignored_as}
use code_assist_harness.Repository.Verdicts.{last_decision, is_directory}

module _ {P : Type 0} (library : PatternLibrary P) (host : RepositoryHost) where
  -- The policies on the way to a path, as they are loaded from a state on, do not ignore it as what it
  -- is: the last pattern that matches it, if any does, does not say so.
  abbrev pub NotIgnored :
      List Text → RepositoryPathKind → AdmissionState P → AdmissionState P → Type 0
  NotIgnored components kind s t =
      (policies : List (ScopedPolicy P)) × (answers : Bool × Bool) × (u : AdmissionState P)
      × (prepare_ignore_view library host components s ≡ (u, found policies))
      × (view_of library host components s ≡ (t, found answers))
      × (last_decision library policies components (is_directory kind) ≡ false)

  -- What is known of a path once `judge` has admitted it in a state.
  abbrev Judged : List Text → Bool × Bool → AdmissionState P → AdmittedRepositoryPath → Type 0
  Judged components lexical s a =
      (canonical : List Text) × (v : AdmissionState P) × (w : AdmissionState P) × (resolve_requested
          host (label components) s
        ≡ (v, found canonical))
      × (a.path ≡ label canonical)
      × (is_hard_denied_path canonical ≡ false)
      × NotIgnored canonical a.kind v w
      × (ignored_as a.kind lexical ≡ false)
