-- ===== src/Repository.antt =====
-- repository_access.py: which paths of a repository may be read. This file has the denied names, the
-- errors, and what one decision keeps; the children have the ignore policies and the admission.
pub mod Grammar
pub mod Lines
pub mod Trimming
pub mod Ignore
pub mod Admission
pub mod Policies
pub mod Budgets
pub mod Within
pub mod Spending
pub mod Charges
pub mod Bound
pub mod Verdicts
pub mod Allowed
mod Examples
use code_assist_harness.Prelude.{
  ℕ, ◌+◌, Option, none, some, Bool, true, false, ◌&&◌, ◌||◌, not, List, [], ◌∷◌, ◌++◌, String, Text,
  codes, ltb, leb, ◌==◌, text_eq, if◌then◌else◌,
}
use code_assist_harness.Utf8.{encode, decode}

pub data RepositoryAccessErrorCode : Type 0 where
  invalid_repository_path repository_path_not_found : RepositoryAccessErrorCode
  repository_path_unavailable repository_path_ignored : RepositoryAccessErrorCode
  repository_expected_directory repository_expected_file : RepositoryAccessErrorCode
  repository_not_text repository_source_too_large : RepositoryAccessErrorCode
  repository_input_limit repository_result_limit : RepositoryAccessErrorCode
  repository_policy_invalid repository_read_failed : RepositoryAccessErrorCode

pub data RepositoryPathKind : Type 0 where
  file directory : RepositoryPathKind

abbrev pub max_policy_source_bytes : ℕ
max_policy_source_bytes = 65536

abbrev pub max_policy_sources : ℕ
max_policy_sources = 16

abbrev pub max_policy_bytes : ℕ
max_policy_bytes = 262144

abbrev pub max_policy_match_work : ℕ
max_policy_match_work = 65536

-- Membership in a collection of texts.
abbrev pub is_member : Text → List Text → Bool
is_member t [] = false
is_member t (u ∷ us) = text_eq t u || is_member t us

abbrev pub denied_components : List Text
denied_components =
    codes ".git" ∷ codes ".hg" ∷ codes ".svn" ∷ codes ".ssh" ∷ codes ".gnupg" ∷ codes ".aws" ∷ []

abbrev pub denied_basenames : List Text
denied_basenames =
    codes ".envrc"
    ∷ codes ".netrc"
    ∷ codes ".npmrc"
    ∷ codes ".pypirc"
    ∷ codes ".git-credentials"
    ∷ codes "credentials"
    ∷ codes "credentials.json"
    ∷ codes "application_default_credentials.json"
    ∷ codes "service-account.json"
    ∷ codes "id_rsa"
    ∷ codes "id_dsa"
    ∷ codes "id_ecdsa"
    ∷ codes "id_ed25519"
    ∷ []

abbrev pub documentation_env_files : List Text
documentation_env_files = codes ".env.example" ∷ codes ".env.sample" ∷ codes ".env.template" ∷ []

abbrev pub denied_suffixes : List Text
denied_suffixes = codes ".pem" ∷ codes ".key" ∷ codes ".p12" ∷ codes ".pfx" ∷ []

-- `str.translate` by `_ASCII_LOWER`.
unfoldable pub ascii_lower : Text → Text
ascii_lower [] = []
ascii_lower (c ∷ cs) = (if leb 65 c && leb c 90 then c + 32 else c) ∷ ascii_lower cs

unfoldable pub starts_with : Text → Text → Bool
starts_with prefix [] = text_eq prefix []
starts_with [] (c ∷ cs) = true
starts_with (p ∷ ps) (c ∷ cs) = p == c && starts_with ps cs

unfoldable pub ends_with : Text → Text → Bool
ends_with suffix [] = text_eq suffix []
ends_with suffix (c ∷ cs) = text_eq suffix (c ∷ cs) || ends_with suffix cs

abbrev pub ends_with_any : List Text → Text → Bool
ends_with_any [] t = false
ends_with_any (s ∷ ss) t = ends_with s t || ends_with_any ss t

abbrev pub has_denied_component : List Text → Bool
has_denied_component [] = false
has_denied_component (c ∷ cs) = is_member c denied_components || has_denied_component cs

-- The tests on the last component.
unfoldable pub is_denied_basename : Text → Bool
is_denied_basename basename =
    let lowered = ascii_lower basename in
    not (is_member basename documentation_env_files)
    && (is_member lowered denied_basenames
        || text_eq lowered (codes ".env")
        || ends_with (codes ".env") lowered
        || starts_with (codes ".env.") lowered
        || ends_with_any denied_suffixes lowered)

unfoldable pub last_denied : List Text → Bool
last_denied [] = false
last_denied (c ∷ []) = is_denied_basename c
last_denied (c ∷ d ∷ cs) = last_denied (d ∷ cs)

unfoldable pub is_hard_denied_path : List Text → Bool
is_hard_denied_path components = has_denied_component components || last_denied components

abbrev pub has_nul : Text → Bool
has_nul [] = false
has_nul (c ∷ cs) = c == 0 || has_nul cs

-- Of a value that is a `str`.
unfoldable pub is_model_facing_text : Text → Bool
is_model_facing_text value = not (has_nul value) && (elim (encode value) [
  | none ↦ false
  | some encoded ↦ elim (decode encoded) [ none ↦ false | some text ↦ text_eq text value ]
])

pub record AdmittedRepositoryPath : Type 0 where
  pub path : Text
  pub kind : RepositoryPathKind
  pub is_symlink : Bool

-- A value, a `RepositoryAccessError`, or an exception of another kind.
pub data Outcome {ℓ} (A : Type ℓ) : Type ℓ where
  found : A → Outcome A
  access_error : RepositoryAccessErrorCode → Outcome A
  uncaught : Outcome A

-- The patterns of a policy source for files and for directories.
pub record PolicyRules (P : Type 0) : Type 0 where
  pub file_rules : List P
  pub directory_rules : List P

pub record ScopedPolicy (P : Type 0) : Type 0 where
  pub owner : List Text
  pub rules : PolicyRules P

-- The state of a decision, with the number of calls of the host so far. The cache is an association
-- list.
pub record AdmissionState (P : Type 0) : Type 0 where
  pub calls : ℕ
  pub cache : List (List Text × PolicyRules P)
  pub loaded_bytes : ℕ
  pub match_work : ℕ

abbrev pub new_admission : {P : Type 0} → AdmissionState P
new_admission = record { calls = 0; cache = []; loaded_bytes = 0; match_work = 0 }

-- What a method does: it changes the state and ends in some way.
abbrev pub Act : Type 0 → Type 0 → Type 0
Act P A = AdmissionState P → AdmissionState P × Outcome A

module _ {P A : Type 0} where
  unfoldable pub give : A → Act P A
  give a s = (s, found a)

  unfoldable pub refuse : RepositoryAccessErrorCode → Act P A
  refuse code s = (s, access_error code)

  unfoldable pub crash : Act P A
  crash s = (s, uncaught)

infixl 5 ◌>>=◌ ◌>>◌
unfoldable pub ◌>>=◌ : {P A B : Type 0} → Act P A → (A → Act P B) → Act P B
(m >>= k) s =
    let (t, r) = m s in
    elim r [
      | found a ↦ k a t
      | access_error code ↦ (t, access_error code)
      | uncaught ↦ (t, uncaught)
    ]

unfoldable pub ◌>>◌ : {P A B : Type 0} → Act P A → Act P B → Act P B
m >> k = m >>= λ _. k

-- `if test: raise RepositoryAccessError(code)`.
unfoldable pub refuse_if : {P : Type 0} → Bool → RepositoryAccessErrorCode → Act P (Unit {0})
refuse_if test code = if test then refuse code else give tt
