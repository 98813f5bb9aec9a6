-- ===== src/Secrets.antt =====
-- scripts/check-secrets.mjs: what blocks a commit. The files, git and the regular expression engine are
-- parameters; the warnings and the installation of the hook are left out.
use monadguard.Base.{
  String, ℕ, ◌≡◌, ◌==◌, Bool, true, false, not, ◌&&◌, ◌||◌, Bool-cases, inl, inr, Option, none,
  some, List, [], ◌∷◌, ◌++◌, ◌∈◌, Text, lit, text_eq, any, length, length-append, keep, map, arith,
  if◌then◌else◌,
}
use monadguard.Scanner.Regex.{Regex, Exec, test}

pub record Pattern : Type 0 where
  pub name : String
  pub re : Regex

abbrev exact : String → Regex
exact source = record { source = source; ignore_case = false }

abbrev pattern : String → String → Pattern
pattern name source = record { name = name; re = exact source }

unfoldable pub patterns : List Pattern
patterns =
    pattern "Alchemy-style RPC url with key" "g\\.alchemy\\.com\\/v2\\/[A-Za-z0-9_-]{20,}"
    ∷ pattern "Tenderly gateway url with key" "gateway\\.tenderly\\.co\\/[A-Za-z0-9_-]{20,}"
    ∷ pattern "QuickNode url with key" "[a-z0-9-]+\\.quiknode\\.pro\\/[a-f0-9]{20,}"
    ∷ pattern "assigned PRIVATE_KEY" "PRIVATE_KEY\\s*[=:]\\s*['\"]?0x?[0-9a-fA-F]{20,}"
    ∷ pattern "assigned ALCHEMY_KEY" "ALCHEMY_KEY\\s*[=:]\\s*['\"]?[A-Za-z0-9_-]{20,}"
    ∷ pattern "PRF seed" "MONADGUARD_PRF_HEX\\s*[=:]\\s*['\"]?[0-9a-fA-F]{64}"
    ∷ pattern "assigned ENVIO_API_TOKEN" "ENVIO_API_TOKEN\\s*[=:]\\s*['\"]?[A-Za-z0-9_-]{16,}"
    ∷ []

unfoldable pub allowlist : List Regex
allowlist =
    exact "^test\\/"
    ∷ exact "^scripts\\/attestor\\.test\\.mjs$"
    ∷ exact "^scripts\\/check-secrets\\.mjs$"
    ∷ exact "^\\.env\\.example$"
    ∷ exact "^package-lock\\.json$"
    ∷ exact "^build\\/"
    ∷ []

-- The repository: the tracked files, the text of each where it can be read, that of .gitignore, and
-- the fields of deployment.json, both where they are there.
pub record Repository : Type 0 where
  pub tracked : List Text
  pub read : Text → Option Text
  pub gitignore : Option Text
  pub deployment : Option (List Text)

pub data Problem : Type 0 where
  tracked_env : Text → Problem
  env_not_ignored : Problem
  looks_like : Text → String → Problem
  suspicious_field : Text → Problem

-- `covers_env` is the test of `/^\.env\s*$/m`.
module _ (exec : Exec) (ends_with : Text → Text → Bool) (covers_env : Text → Bool) where
  -- `f === '.env' || f.endsWith('/.env')`
  unfoldable pub is_env : Text → Bool
  is_env f = text_eq f (lit ".env") || ends_with f (lit "/.env")

  unfoldable pub env_problems : List Text → List Problem
  unfolding is_env
  env_problems files = map tracked_env (keep is_env files)

  unfoldable pub ignore_problems : Option Text → List Problem
  ignore_problems none = env_not_ignored ∷ []
  ignore_problems (some text) = if covers_env text then [] else env_not_ignored ∷ []

  unfoldable pub content_problems : Text → Text → List Pattern → List Problem
  content_problems file content [] = []
  content_problems file content (p ∷ ps) =
      let rest = content_problems file content ps in
      if test exec p.re content then looks_like file p.name ∷ rest else rest

  unfoldable pub read_problems : Text → Option Text → List Problem
  unfolding content_problems
  read_problems file none = []
  read_problems file (some content) = content_problems file content patterns

  unfoldable pub file_problems : Repository → Text → List Problem
  unfolding read_problems
  file_problems repo file =
      if any (λ re. test exec re file) allowlist then [] else read_problems file (repo.read file)

  unfoldable pub tracked_problems : Repository → List Text → List Problem
  unfolding file_problems
  tracked_problems repo [] = []
  tracked_problems repo (f ∷ fs) = file_problems repo f ++ tracked_problems repo fs

  unfoldable pub deployment_problems : Option (List Text) → List Problem
  deployment_problems none = []
  deployment_problems (some fields) = map suspicious_field (
      keep
        (λ k.
          test exec (record { source = "priv|secret|key"; ignore_case = true }) k
          && not (text_eq k (lit "attestorKey")))
        fields)

  unfoldable pub problems : Repository → List Problem
  unfolding env_problems ignore_problems tracked_problems deployment_problems
  problems repo =
      env_problems repo.tracked
      ++ (ignore_problems repo.gitignore
          ++ (tracked_problems repo repo.tracked ++ deployment_problems repo.deployment))

  -- `if (problems.length) process.exit(1)`
  unfoldable pub secrets_code : Repository → ℕ
  unfolding problems
  secrets_code repo = if length (problems repo) == 0 then 0 else 1

  content_clean :
      (file content : Text) (ps : List Pattern) (p : Pattern)
      → length (content_problems file content ps) ≡ 0
      → p ∈ ps
      → test exec p.re content ≡ false
  unfolding content_problems
  content_clean file content [] p h m = absurd m
  content_clean file content (q ∷ ps) p h m = elim (Bool-cases (test exec q.re content)) [
    | inl t ↦ absurd (omega (arith, rw t at h))
    | inr t ↦ elim m [ inl e ↦ rw e t | inr k ↦ content_clean file content ps p (rw t at h) k ]
  ]

  tracked_clean :
      (repo : Repository) (files : List Text) (file : Text)
      → length (tracked_problems repo files) ≡ 0
      → file ∈ files
      → length (file_problems repo file) ≡ 0
  unfolding tracked_problems
  tracked_clean repo [] file h m = absurd m
  tracked_clean repo (f ∷ fs) file h m =
      let e = length-append (file_problems repo f) (tracked_problems repo fs) in
      elim m [
        | inl k ↦ rw k (omega (arith, h, e))
        | inr k ↦ tracked_clean repo fs file (omega (arith, h, e)) k
      ]

  problems_clean :
      (repo : Repository) → secrets_code repo ≡ 0 → length (tracked_problems repo repo.tracked) ≡ 0
  unfolding secrets_code problems
  problems_clean repo h =
      let c = tracked_problems repo repo.tracked in
      let d = deployment_problems repo.deployment in
      let b = ignore_problems repo.gitignore in
      let a = env_problems repo.tracked in
      ground (arith, length-append c d, length-append b (c ++ d), length-append a (b ++ (c ++ d)))

  -- Where the check for secrets exits with 0, no tracked file that can be read and is not on the
  -- list of allowed ones matches a pattern of the table.
  pub secrets_code-clean :
      (repo : Repository) (file content : Text) (p : Pattern)
      → secrets_code repo ≡ 0
      → file ∈ repo.tracked
      → any (λ re. test exec re file) allowlist ≡ false
      → repo.read file ≡ some content
      → p ∈ patterns
      → test exec p.re content ≡ false
  unfolding file_problems read_problems
  secrets_code-clean repo file content p c m a r i =
      let h = tracked_clean repo repo.tracked file (problems_clean repo c) m in
      content_clean file content patterns p (rw (a, r) at h) i
