-- ===== src/Lib.antt =====
-- The Python tools that guard the nscscc-cpu refactoring: what they accept, refuse and compute.
--
-- The repository holds an out-of-order LA32R core in SpinalHDL, and under tools/ the Python
-- programs that decide whether a change of the core may be believed: they compare generated
-- Verilog with a locked golden source, and they validate the evidence files of each iteration.
-- This library models those decisions.
--
-- Base and its children: shared names, Boolean tests on native numbers, lists, texts as lists of
-- code points (str.strip, splitlines, split, startswith), Python's int.
-- Result: exceptions as values. `refused` is the tool's own error class, with its message less the
-- interpolated values; `type_error` and `key_error` are exceptions of the language that no handler
-- of the tools catches.
-- Json: what json.loads returns, with Python's `==` (True == 1, 1 == 1.0), `dict.get` and
-- hashability. A double is nan, an infinity or m / 2 ** k.
-- Iteration and its children: the command validate-iteration of tools/refactor.py.
--   Require     _require_object, _require_nonempty_string, _require_git_sha,
--               _require_nonnegative_int, membership in a set, d[key]
--   Gate        _validate_gate, _validate_required_gates, gate_counts
--   Host        Git, the file system, SHA-256, the JSON parser and datetime, as parameters
--   Target      _review_target_is_acceptable
--   Summary     _validate_summary
--   Commands    _has_evidence, _parse_iso_timestamp, _validate_commands
--   Artifacts   _resolve_artifact_path, _validate_artifacts
--   Review      _raw_review_events, _review_event_field, _validate_review
--   Validate    command_validate_iteration and the exit status of main
-- A state is passed on explicitly: the events collected, the paths and ids seen, the gates read.
-- Loops over collections are recursions on the list.
-- Vectors and its children: tools/mul_diff.py and tools/div_diff.py.
--   Word        signed32 and the masks;  Product  mathematical_product
--   Division    mathematical_division
--   Suite       directed_vectors, make_vectors, write_vector_file
-- Verilog and its children: the reading of Verilog text in tools/refactor.py.
--   Mask        mask_verilog_comments_and_strings, a loop with a state and one character ahead
--   Macros      referenced_verilog_macros, its regular expressions written out as functions
-- Contract and its children: tools/mul_contract.py and tools/div_contract.py.
--   Fields      _require_fields, _require_string, _require_integer, _require_relative_posix_path
--   Mul         validate_contract, one function per group of fields
--   Pairs       _reject_duplicate_keys, which the JSON parser calls for each object
--   Manifest    parse_manifest, on the text of the file
--   Exact, Div  _require_exact and validate_contract of tools/div_contract.py, its constants in
--               Div/Values
-- Locks and its children: the validation locks of tools/refactor.py, under POSIX.
--   Write       _write_all, on fuel: a byte of fuel for each byte of the payload is enough, since a
--               call that writes nothing ends the loop
--   Disk        names, file identities and contents; ValidationLock; the encoder and the decoder
--   Release     _remove_owned_lock, release_validation_lock, release_validation_locks
--   Acquire     _acquire_validation_lock, acquire_iteration_lock, acquire_smoke_lock
--   World       processes as a step relation: they acquire, release and abandon locks in any order
-- Transcript and its children: the reading of build and simulation logs. The regular expressions
-- are functions on code points; which characters are letters or digits is a parameter.
--   Simulation  parse_simulation_log of tools/refactor.py
--   Warnings    parse_verilator_warnings, parse_build_errors, verilator_build_integrity_passed
--   Summary     warning_scope, collect_warnings and summarize of tools/sim_result.py
-- Publication and its children: the publication of reports in tools/refactor.py. A directory is a
-- function from names to nodes, and a run records each directory that can be observed.
--   Replace     write_json and _write_json_posix, a system call at a time; what the calls answer is
--               an argument, with the lengths that the file has on the disk while it is written
--   Marker      remove_stale_report_publication, write_publication_marker,
--               require_report_publication, and their order in _command_chiplab_overlay_locked
-- Waivers and its children: validate_waivers of tools/div_diff.py, the registry of the loop as a
-- record that is passed on.
-- Replacement and its children: the plan of component replacements of tools/refactor.py.
--   Git         git_text, require_clean_source_head, git_regular_blob_entry
--   Golden      parse_lock, read_golden_files, checked_repo_git_path
--   Patterns    the regular expressions of validate_generated_lint_annotations
--   Lint        its inventory and its loop
--   Content     validate_replacement_verilog
--   Plan        load_component_replacement_plan
-- Controls and its child: the negative controls of tools/div_diff.py (mutate_source).
-- Identity and its child: _validate_counts and _validate_parser of tools/identity_compare.py.
-- Python's random generator is a parameter whose getrandbits(k) is below 2 ** k.
--
-- Only the writing loop of Locks runs on fuel; every other loop is structural.
--
-- Not modelled: the limit on the digits of Python's int, subprocess calls, file writing but for the
-- locks and write_json, failures of fstat, lstat and lseek in the acquisition and the release of a
-- lock, time stamps in reports, the command line parser and the texts interpolated
-- into messages. Strings with lone surrogates are left out of Json.
pub mod Base
pub mod Result
pub mod Json
pub mod Iteration
pub mod Vectors
pub mod Verilog
pub mod Contract
pub mod Locks
pub mod Transcript
pub mod Publication
pub mod Waivers
pub mod Replacement
pub mod Controls
pub mod Identity
mod Tests
