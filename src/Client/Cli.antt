-- ===== src/Client/Cli.antt =====
-- client/cli.mjs: the command `monadguard check`. What it prints is left out.
use monadguard.Base.{
  ℕ, ◌≡◌, Bool, true, false, not, ◌||◌, Bool-cases, inl, inr, refl, Option, none, some, List, [],
  ◌∷◌, ◌++◌, Text, lit, text_eq, truthy, any, take, if◌then◌else◌,
}
use monadguard.Client.Answer.{Answer}
use monadguard.Client.Lookup.{Services, first}
use monadguard.Client.Check.{ToolQuery, auto, ok, check}
use monadguard.Client.Gate.{GateOptions, Outcome, passed, blocked, failed, gate}
use monadguard.Client.Gate.Clears.{IsCleared}
use monadguard.Client.Gate.Blocks.{gate-passed}

-- `argv[argv.indexOf('--name') + 1]`: the outer `none` says that the flag is not there.
unfoldable pub flag : Text → List Text → Option (Option Text)
flag name [] = none
flag name (a ∷ args) = if text_eq a (lit "--" ++ name) then some (first args) else flag name args

unfoldable pub flag_or : Option (Option Text) → Option Text → Option Text
flag_or none default = default
flag_or (some value) default = value

unfoldable pub has_flag : Text → List Text → Bool
has_flag name args = any (text_eq (lit "--" ++ name)) args

-- `[...a, argv[i + 1]]`; a value that is not there is compared as the text `undefined`.
shown : Option Text → Text
shown none = lit "undefined"
shown (some t) = t

unfoldable pub pins : List Text → List Text
unfolding shown
pins [] = []
pins (a ∷ args) =
    let rest = pins args in if text_eq a (lit "--attestor") then shown (first args) ∷ rest else rest

-- `...(attestors.length ? { attestors } : {})`
unfoldable pub pinned : List Text → Option (List Text)
pinned [] = none
pinned (t ∷ ts) = some (t ∷ ts)

-- `!x || x.startsWith('--')`
unfoldable pub is_usage : Text → Bool
is_usage origin = not (truthy origin) || text_eq (take 2 origin) (lit "--")

-- `number` is JavaScript's `Number` of a text, for natural numbers; `none` is NaN, which `gate` takes as
-- it takes 0.
module _ (number : Text → Option ℕ) where
  unfoldable pub number_or_zero : Option Text → ℕ
  number_or_zero none = 0
  number_or_zero (some t) = elim (number t) [ none ↦ 0 | some n ↦ n ]

  unfoldable pub options_of : List Text → GateOptions
  unfolding flag has_flag pins pinned number_or_zero
  options_of args = record {
    attestors = pinned (pins args);
    max_age_days = elim (flag (lit "max-age-days") args) [ none ↦ 90 | some v ↦ number_or_zero v ];
    allow_warn = has_flag (lit "allow-warn") args;
    allow_unknown = false;
    content_hash = none;
    resolve = auto;
  }

-- `...(flag('name') ? { name: flag('name') } : {})`
unfoldable pub given_name : Option Text → Option Text
given_name none = none
given_name (some t) = if truthy t then some t else none

unfoldable pub query_of : Text → List Text → ToolQuery
unfolding flag flag_or given_name
query_of origin args = record {
  tool_id = none;
  kind = flag_or (flag (lit "kind") args) (some (lit "mcp"));
  name = given_name (flag_or (flag (lit "name") args) none);
  origin = some origin;
}

unfoldable pub exit_code : Outcome → ℕ
exit_code (passed r) = 0
exit_code (blocked r why) = 1
exit_code (failed e) = 2

-- The usage is printed with the exit code 1, and with 0 where there is no origin.
unfoldable pub usage_code : List Text → ℕ
usage_code (cmd ∷ origin ∷ args) = if truthy origin then 1 else 0
usage_code _ = 0

-- `answer` is `gate`.
unfoldable pub run_cli : (Text → Option ℕ) → (GateOptions → ToolQuery → Outcome) → List Text → ℕ
unfolding options_of query_of exit_code usage_code is_usage
run_cli number answer (cmd ∷ origin ∷ args) =
    let argv = cmd ∷ origin ∷ args in
    if not (text_eq cmd (lit "check")) || is_usage origin
    then usage_code argv
    else exit_code (answer (options_of number argv) (query_of origin argv))
run_cli number answer argv = usage_code argv

exit_code-passed : (o : Outcome) → exit_code o ≡ 0 → (r : Answer) × (o ≡ passed r)
unfolding exit_code
exit_code-passed (passed r) h = (r, refl)
exit_code-passed (blocked r why) h = absurd (cc)
exit_code-passed (failed e) h = absurd (cc)

-- Where the second argument is an origin and --allow-warn is not given, an exit code 0 of the
-- command line means that the lookup of the query gave an answer which is cleared under the options
-- of the arguments.
pub run_cli-IsCleared :
    (number : Text → Option ℕ) (keccak : Text → Text) (net : Services) (now_ms : ℕ)
    (cmd origin : Text) (args : List Text)
    → truthy origin ≡ true
    → has_flag (lit "allow-warn") (cmd ∷ origin ∷ args) ≡ false
    → run_cli number (gate keccak net now_ms) (cmd ∷ origin ∷ args) ≡ 0
    → (r : Answer) × (check keccak net auto (query_of origin (cmd ∷ origin ∷ args)) ≡ ok r)
      × IsCleared now_ms (options_of number (cmd ∷ origin ∷ args)) r
unfolding run_cli usage_code options_of
run_cli-IsCleared number keccak net now_ms cmd origin args given strict h =
    let argv = cmd ∷ origin ∷ args in
    elim (Bool-cases (not (text_eq cmd (lit "check")) || is_usage origin)) [
      | inl e ↦ absurd (cc (rw (e, given) at h))
      | inr e ↦
          let (r, p) = exit_code-passed _ (rw e at h) in
          let (c, d) =
            gate-passed keccak net now_ms (options_of number argv) (query_of origin argv) r strict
              refl p in
          (r, c, d)
    ]
