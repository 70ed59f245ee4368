-- ===== src/Lib.antt =====
-- A model of policyai, a Rust library that turns unstructured text into JSON by policies written in
-- natural language, with the theorems that make it correct. Paths are from the root of the
-- repository.
--
-- The program. A policy type (`PolicyType`) lists typed fields, each with a default and a strategy for
-- conflicts. A policy has such a type, a prompt, and an action, a JSON object that sets some of the
-- fields. `Manager::apply` builds a request from its policies: `ReportBuilder::add_policy` replaces the
-- names of the fields in each prompt by fresh identifiers, the masks, and numbers the policies as
-- rules. The remote model answers with a JSON object over the masks, and with the numbers of the
-- rules that it says it applied. `ReportBuilder::consume_ir` applies every mask to the answer, which
-- reports values for the fields, defaults, conflicts and errors to a `Report`. If the rules that the
-- report has matched are not those of the answer, `apply` explains the difference to the model and
-- tries again.
--
-- Policy types are written in a small language, which `parse` reads and `Display` prints. The model
-- makes policies of them with `with_semantic_injection`. The programs under src/bin evaluate a set of
-- policies: they compare outputs with expectations and with a baseline, count what matches and what
-- it costs, and extract the regressions.
--
-- The files.
--   Prelude            shared names, Boolean tests on numbers, texts as lists of code points, lists
--   Json               the values of serde_json, and `Platform`, the parameter that stands for `f64`,
--                      `serde_json::Number` and the messages of claudius; Json/Maps has the laws of maps
--   Numbers, Field     src/lib.rs, src/field.rs, src/on_conflict.rs
--   PolicyType         src/policy_type.rs and src/policy.rs; PolicyType/Injection has the answer of the
--                      model to a semantic injection
--   Format             the `{:?}` of strings and the decimal numbers that the sources write into texts
--   Errors             src/errors.rs
--   Masks              src/masks.rs; Masks/Apply has the operations, and their laws below it
--   Report             src/report.rs; Report/Values has the operations that report a value,
--                      Report/Defaults and Report/Output the defaults and the merged output, and
--                      Report/Strategies the strategies as an abstract specification, its
--                      implementation (Instances), and what follows for several policies
--   ReportBuilder      src/report_builder.rs; ReportBuilder/Policies has `add_policy`, and
--                      ReportBuilder/Consume and ReportBuilder/Rules what holds of `consume_ir`
--   Usage              src/usage.rs, and the parameter `Claudius` for the types of claudius and the clock
--   Manager            src/manager.rs; Manager/Apply has `request_for` and `apply`
--   Display            `Display` of fields and policy types in src/field.rs and src/policy_type.rs
--   Parser             src/parser.rs, which reads policy types: the lexer is in Parser/Lexer, the parts
--                      of the grammar in Parser/Grammar, fields and policy types in Parser/Fields.
--                      Parser/Returns, with the modules Total and Sound, has what every result
--                      satisfies, and Parser/Printed and Parser/RoundTrip what `Display` prints
--   Examples           the theorems at concrete inputs, and runs
--   Data               the statistical test of src/data.rs; Data/Votes has what it decides, and
--                      Data/Points the test cases and reports
--   Evaluate           the comparison of outputs in src/bin/policyai-evaluate-policies.rs
--   Analysis           the counters and percentiles of src/analysis.rs, and the metrics of src/data.rs;
--                      Analysis/Tokens has the token usage, its statistics and the formula of a
--                      percentile's index, Analysis/Sorted and Analysis/Percentiles where a value of a
--                      sorted list stands, and Analysis/Rates the rates
--   Regressions        the comparison in src/bin/policyai-extract-regressions.rs; Regressions/Options
--                      and Regressions/Pairs what holds of it
--
-- How state is modelled. An operation with `&mut self` takes the state and returns the new one. An
-- operation that may panic, as `value[key] = v` does at a value that is neither an object nor null,
-- returns an `Option`, none for the panic. A `Result` is `Outcome`, a sum, or, where the state stays
-- changed beside the error, a record of both, as in `Added` and `Ran`. Functions of the sources that
-- match on the result of a lookup are split at the match, so that a helper takes what was found.
--
-- Bounds. `apply` makes at most `max_attempts` = 5 requests, the bound of the source's loop; the
-- model recurses on the attempts that are left. `extract_strings` recurses on the depth that the
-- source passes, 128. The loops of the lexer and of the parser recurse on fuel, one more than the
-- characters or the tokens that are left, which is enough because every round takes one. The loop
-- of `apply_policy_fractional` recurses on the requests that are left of `n`, which the source's
-- loop decreases too. All other recursion is on the structure of the data. Rule numbers and
-- counters are natural numbers: the sources count policies, requests and reports in memory, far
-- below the bound of `usize`. The percentiles take at most 2^53 values, the numbers up to which `f64`
-- has every whole number.
--
-- Not modelled. The identifiers of `Uuid::new_v4`, the remote model, the clock, the schemas that
-- claudius derives and the texts of the prompts are parameters, and so is the arithmetic of `f64`:
-- `IsFloat` in Analysis/Percentiles says what the percentiles rely on, that IEEE 754 keeps the order and
-- is exact on whole numbers.
-- The classes of characters beyond ASCII and the numerals of `f64` are parameters of the parser
-- (`Lexical`). serde and the `Display` of policy errors and reports are left out, and so are the
-- programs under src/bin but for the comparisons above.
pub mod Prelude
pub mod Json
pub mod Numbers
pub mod Format
pub mod Field
pub mod PolicyType
pub mod Display
pub mod Errors
pub mod Masks
pub mod Report
pub mod ReportBuilder
pub mod Usage
pub mod Manager
pub mod Parser
pub mod Data
pub mod Analysis
pub mod Evaluate
pub mod Regressions
pub mod Examples
