-- ===== src/Examples/Clients.antt =====
-- The client and the registry's index at small inputs.
use monadguard.Base.{
  ℕ, Option, truthy, ◌≡◌, ◌↔◌, inl, inr, refl, true, false, none, some, List, [], ◌∷◌, Text, lit,
  to_lower, text_eq, find, keep, any, trim, strip_slashes,
}
use monadguard.Client.Answer.{verdict_name, Answer, Attestation, Verdict, envio}
use monadguard.Client.Lookup.{or_value, lookup, IndexedScan, IndexReply, Services}
use monadguard.Client.Check.{ToolQuery, auto, ok, check, check_named, asked_id}
use monadguard.Client.Check.Identity.{check_named-tool_id}
use monadguard.Client.Cli.{run_cli, has_flag, options_of, query_of, run_cli-IsCleared}
use monadguard.Client.Agent.{Arguments, Told, told, cleared, known_as, call_tool, ScanReply}
use monadguard.Client.Agent.Identity.{call_tool-cleared}
use monadguard.Identity.{tool_id, canonical_tool}
use monadguard.Client.Gate.{GateOptions, passed, decide_gate, gate, in_scope}
use monadguard.Client.Gate.Clears.{IsCleared, InScope, decide_gate-passed_iff}
use monadguard.Client.Gate.Blocks.{critical-blocks, gate-passed}

abbrev clean_row : IndexedScan
clean_row = record {
  attestor_id = lit "0xa";
  verdict = 1;
  score = 0;
  content_hash = lit "0xc";
  timestamp = 1000;
  tx_hash = lit "0xd";
}

abbrev critical_row : IndexedScan
critical_row = record clean_row { verdict = 3 }

abbrev reply : List IndexedScan → IndexReply
reply rows = record {
  tool = some (record {
    scan_count = 1;
    latest_verdict = 1;
    latest_score = 0;
    latest_content_hash = lit "0xc";
    last_seen = 1000;
  });
  scans = rows;
}

abbrev registry : Services
registry = record {
  graphql = λ id. some (reply (clean_row ∷ critical_row ∷ []));
  rest = λ id. none;
  resolve = λ origin kind. none;
}

abbrev keccak : Text → Text
keccak t = t

abbrev query : ToolQuery
query = record { tool_id = some (lit "0x7"); kind = none; name = none; origin = none }

abbrev options : GateOptions
options = record {
  attestors = none;
  max_age_days = 90;
  allow_warn = false;
  allow_unknown = false;
  content_hash = none;
  resolve = auto;
}

abbrev attested : Verdict → Attestation
attested v = record {
  address = some (lit "0xa");
  verdict = some v;
  score = 0;
  content_hash = some (lit "0xc");
  timestamp = 1000;
  tx_hash = some (lit "0xd");
}

abbrev answer : List Attestation → Answer
answer list = record {
  known = true;
  tool_id = some (lit "0x7");
  verdict = Verdict.clean;
  score = some 0;
  scans = 1;
  attestors = list;
  last_seen = some 1000;
  source = envio;
  resolved = none;
  candidates = none;
}

abbrev clean_answer : Answer
clean_answer = answer (attested Verdict.clean ∷ [])

gate_passes : gate keccak registry 2000000 options query ≡ passed clean_answer
unfolding gate check lookup keep any text_eq find verdict_name to_lower
gate_passes = refl

gate-passed_example :
    (check keccak registry auto query ≡ ok clean_answer) × IsCleared 2000000 options clean_answer
gate-passed_example =
    gate-passed keccak registry 2000000 options query clean_answer refl refl gate_passes

decide_gate-passed_iff_example :
    (decide_gate 2000000 options clean_answer ≡ passed clean_answer)
    ↔ IsCleared 2000000 options clean_answer
decide_gate-passed_iff_example = decide_gate-passed_iff 2000000 options clean_answer refl refl

abbrev bad_answer : Answer
bad_answer = answer (attested Verdict.clean ∷ attested Verdict.critical ∷ [])

bad_in_scope : InScope 2000000 options bad_answer (attested Verdict.critical)
unfolding in_scope
bad_in_scope = (inr (inl refl), refl)

critical-blocks_example :
    ¬ (decide_gate 2000000 (record options { allow_unknown = true }) bad_answer ≡ passed bad_answer)
unfolding in_scope
critical-blocks_example =
    critical-blocks 2000000 (record options { allow_unknown = true }) bad_answer bad_answer
      (attested Verdict.critical) refl bad_in_scope refl

asked : asked_id keccak query [] ≡ ok (lit "0x7")
unfolding asked_id to_lower
asked = refl

named : check_named keccak registry auto query [] ≡ ok clean_answer
unfolding check_named lookup to_lower verdict_name any text_eq
named = refl

check_named-tool_id_example : clean_answer.tool_id ≡ some (lit "0x7")
check_named-tool_id_example =
    check_named-tool_id keccak registry auto query [] (lit "0x7") clean_answer (λ e. cc) asked named

abbrev resolving : Services
resolving = record registry {
  resolve = λ origin kind.
      some (
        record { tool_id = lit "0x7"; kind = lit "mcp"; name = lit "b"; origin = lit "npm:a" }
        ∷ []);
}

abbrev no_number : Text → Option ℕ
no_number t = none

strict_arguments : has_flag (lit "allow-warn") (lit "check" ∷ lit "npm:a" ∷ []) ≡ false
unfolding has_flag any text_eq
strict_arguments = refl

exits_zero : run_cli no_number (gate keccak resolving 2000000) (lit "check" ∷ lit "npm:a" ∷ []) ≡ 0
unfolding run_cli gate text_eq truthy check or_value lookup keep any find verdict_name
exits_zero = refl

origin_given : truthy (lit "npm:a") ≡ true
unfolding truthy
origin_given = refl

run_cli-IsCleared_example :
    (r : Answer) × (check keccak resolving auto
        (query_of (lit "npm:a") (lit "check" ∷ lit "npm:a" ∷ []))
      ≡ ok r)
    × IsCleared 2000000 (options_of no_number (lit "check" ∷ lit "npm:a" ∷ [])) r
run_cli-IsCleared_example =
    run_cli-IsCleared no_number keccak resolving 2000000 (lit "check") (lit "npm:a") [] origin_given
      strict_arguments exits_zero

abbrev no_scan : Text → Option ScanReply
no_scan name = none

abbrev arguments : Option Text → Arguments
arguments name = record {
  kind = none;
  name = name;
  origin = some (lit "npm:a");
  manifest_name = none;
}

abbrev cleared_told : Told
cleared_told = record {
  verdict = Verdict.clean;
  risk = some 0;
  known = true;
  advice = cleared;
  attestors = clean_answer.attestors;
  tool_id = some (lit "mcp:npm:a#b");
  declared_name = none;
  source = envio;
}

name_given : truthy (lit "b") ≡ true
unfolding truthy
name_given = refl

agent_told :
    call_tool keccak registry no_scan (lit "check_tool") (arguments (some (lit "b")))
    ≡ told cleared_told
unfolding call_tool check lookup to_lower verdict_name any text_eq tool_id truthy or_value
    canonical_tool trim strip_slashes
agent_told = refl

call_tool-cleared_example :
    (some (lit "mcp:npm:a#b")
      ≡ some (to_lower (tool_id keccak (or_value none (lit "mcp")) (lit "b") (lit "npm:a"))))
    × ((b : Answer) × (lookup registry
            (to_lower (tool_id keccak (or_value none (lit "mcp")) (lit "b") (lit "npm:a")))
          ≡ some b)
        × (b.verdict ≡ Verdict.clean))
call_tool-cleared_example =
    call_tool-cleared keccak registry no_scan (arguments (some (lit "b"))) (lit "b") (lit "npm:a")
      cleared_told refl name_given refl agent_told refl

abbrev empty_registry : Services
empty_registry = record resolving { graphql = λ id. some (record { tool = none; scans = [] }) }

-- Of a tool without a name, known by its origin but without a verdict, the advice names the missing
-- argument.
nameless_advice :
    (t : Told) × (call_tool keccak empty_registry no_scan (lit "check_tool") (arguments none)
      ≡ told t)
    × ((c : _) × (t.advice ≡ known_as none c))
unfolding call_tool check lookup to_lower verdict_name any text_eq tool_id truthy or_value
nameless_advice = (_, refl, (_, refl))
