-- ===== src/Examples/Repositories.antt =====
-- The check for secrets at a small repository.
use monadguard.Base.{
  text_eq, keep, ◌≡◌, inl, refl, Bool, true, false, none, some, List, [], ◌∷◌, ◌∈◌, Text, lit, any,
}
use monadguard.Scanner.Regex.{Exec, test}
use monadguard.Secrets.{Pattern, patterns, allowlist, Repository, secrets_code, secrets_code-clean}

abbrev blind : Exec
blind re t = none

abbrev never : Text → Text → Bool
never f suffix = false

abbrev always : Text → Bool
always t = true

abbrev repository : Repository
repository = record {
  tracked = lit "a.js" ∷ [];
  read = λ file. some (lit "x = 1");
  gitignore = some (lit ".env");
  deployment = none;
}

abbrev first_of : List Pattern → Pattern → Pattern
first_of [] p = p
first_of (p ∷ ps) q = p

abbrev some_pattern : Pattern
some_pattern = record { name = ""; re = record { source = ""; ignore_case = false } }

exits_clean : secrets_code blind never always repository ≡ 0
unfolding secrets_code keep text_eq any allowlist patterns
exits_clean = refl

not_allowed : any (λ re. test blind re (lit "a.js")) allowlist ≡ false
unfolding any allowlist
not_allowed = refl

first_pattern : first_of patterns some_pattern ∈ patterns
unfolding patterns
first_pattern = inl refl

secrets_code-clean_example : test blind (first_of patterns some_pattern).re (lit "x = 1") ≡ false
secrets_code-clean_example =
    secrets_code-clean blind never always repository (lit "a.js") (lit "x = 1")
      (first_of patterns some_pattern) exits_clean (inl refl) not_allowed refl first_pattern
