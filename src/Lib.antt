-- ===== src/Lib.antt =====
-- Verification of vllm-sail, the plugin that brings vLLM to PPU devices.
--
-- Nine parts of the program are modelled.
--
-- * Patch, for vllm_sail/patch/utils.py. The plugin changes vLLM by replacing attributes of its
--   modules and classes. The model has Python objects with identities, namespaces, descriptors,
--   the marker that a replacement carries, and `PATCH_REGISTRY`; a statement changes that state
--   and ends with a value or an exception (Patch/Monad). Patch/Path has the texts, Patch/Heap
--   the objects, Patch/Attributes the helpers from `_validate_metadata` to `_capture_source`,
--   Patch/Install the paths `_patch_module_attribute` and `_patch_class_method`, Patch/Run
--   `patch`, `patch_value` and `original_of`. The other files hold proofs: Patch/Steps and
--   Patch/Commit take an installation apart, Patch/Module, Patch/Class and Patch/Descriptor say
--   what a good one has done, Patch/Quiet and Patch/Atomic what one that raises leaves,
--   Patch/Value what a second value does.
-- * Select, for scripts/ci/ppu_ops_select.py, which chooses the device tests of a change and
--   checks a choice that was made elsewhere. Select/Formats checks single values, Select/Config
--   holds the configuration, Select/Choice is `select_tests` with its loop in
--   Select/Choice/Loop, Select/Routes is `route_tests`, Select/Environment
--   `validate_environment`, Select/Build `build_fingerprint` and `validate_changes`,
--   Select/Selection `make_selection`, Select/Validate `validate_selection`. Every failure there
--   is one exception, so a function returns an `Option`. Sets are lists that are put in order
--   where the code sorts them (Base/Sorting).
-- * Warmup, for vllm_sail/model_executor/warmup/deep_gemm_warmup.py. Warmup/Layers has a model's
--   layers, Warmup/Eligible the functions that choose among them (`_may_use_deep_gemm`),
--   Warmup/Values the token counts of a dense weight, Warmup/Layout their division among the
--   ranks of a node, Warmup/Dense and Warmup/Grouped the warm-ups of one weight with the sizes
--   they remember, Warmup/Count the `_count_warmup_iterations` functions, Warmup/Model the loops
--   over a model and `deep_gemm_warmup`. The kernels are one enumeration, of which each has a
--   cache. Warmup/Coverage, Warmup/Once, Warmup/Bounds hold proofs, and so do the files from
--   Warmup/Single to Warmup/Total: a weight (Single, Announced), a list of weights (Loops,
--   Fits), a kind of kernel (Groups, Kinds), all of them (Total).
-- * Control, for scripts/ci/ppu_ci_command.py, which starts CI on a comment. Control/Outcome is
--   how a step ends and what GitHub answers, Control/Authorize `can_write` and `authorize`,
--   Control/Runs `find_runs`, Control/Wheels `reusable_wheels`, Control/Launch `launch` and
--   `run` with the calls that change something, Control/Cancel `cancel` and `retry`,
--   Control/Command `parse_command` and `command`, which calls them, and Control/Report
--   `inputs`, `validate` and the status that `report` sets, with their properties.
--   Control/Asked, Control/Commanded, Control/Found, Control/Latest, Control/Allowed, Control/Dispatch, Control/Reuse and
--   Control/Cancelled and Control/Retried hold proofs.
-- * Compat, for vllm_sail/compat.py, which refuses a vLLM that the plugin was not made for:
--   versions as keys in Compat/Version, the check in Compat/Check, its meaning in Compat/Range,
--   and the two queries in Compat/Queries.
-- * Native, for vllm_sail/native/manifest.py (Native/Manifest) and vllm_sail/native/porting.py,
--   which port vLLM's kernels: Native/Closure is `_closure_paths`, Native/Prune the class
--   `_BindingPruner`, Native/Render `render_excluded_ops`. Native/Sound and Native/Division hold
--   proofs on a manifest, Native/Grown, Native/Closed and Native/Reached on the closure,
--   Native/Pruned, Native/Kept and Native/Declared on the pruner, and Native/Quoted reads back what `_escape`
--   writes.
--
-- * Envs, for vllm_sail/envs.py: the names of the settings with their older spellings, and how a
--   Boolean or a choice is read.
-- * Moe, for vllm_sail/registry/moe_backends, which puts the plugin's MoE backends before vLLM's.
--   Moe/Backend has what the oracles share, Moe/Fp8, Moe/Int8, Moe/Unquantized, Moe/Wna16 and
--   Moe/Mxfp4 an oracle each, from its priority list to the conversion of weights. Moe/Rebind is
--   the package's __init__.py: modules of vLLM that took an oracle's function before it was
--   replaced get the replacement, by the `patch` of Patch; their table is in
--   Moe/Rebind/Consumers. Moe/Priority, Moe/Explicit and Moe/Tried hold proofs on the oracles,
--   Moe/Placed, Moe/Items and Moe/Rebound on the rebinding.
-- * Runner, for scripts/ci/ppu_ops_runner.py, which runs the selected device tests in a pod and
--   checks what came out. Runner/Nodes is `validate_node_report` of tests/support/ppu_ci.py,
--   Runner/Evidence the checks of one test file and `effective_selection`, Runner/Group
--   `validate_group` and `validate_results`, Runner/Inputs `result_path`, `clean_environment` and
--   `read_inputs`, Runner/Pod what the pod answers and `run_files`, Runner/Execute `execute` stage
--   by stage. Runner/Passed, Runner/Accepted and Runner/Whole hold proofs on accepted results,
--   Runner/Blamed and Runner/Ended on how a run ends.
--
-- Base has what the parts share: Python's `==`, `in`, `any`, `all`, sorting, dicts, failures
-- (Base/Failing) and exceptions that are told apart (Base/Raising). Moe reads the settings of Envs
-- and calls `patch` of Patch; Runner calls `validate_selection`, `build_fingerprint` and
-- `route_tests` of Select, as the programs do. The controller starts the workflow in which the
-- selection decides which device tests run, and the runner runs them.
--
-- Loops are structural recursion on the list that the code walks over, so every function is
-- total. The one loop on fuel is `while queue` of the include closure: a round takes one file
-- from the queue, and a file is put there once, so as many rounds as there are sources and
-- reachable files are enough.
--
-- Parameters. Of `str.isdigit`, `int` and `str.lower` on versions the model has the record
-- `Texts` of Compat/Version; of `importlib.import_module`, attribute hooks, `inspect.getsource`
-- and `==` on Python objects, the record `Python` of Patch/Heap; of `fnmatch.fnmatchcase`,
-- `str.lower`, SHA-256 and the two files that are read, the record `Outside` of
-- Select/Selection; of the process groups, the environment and vLLM's `cdiv` and of
-- which kernel calls return, the record `Process` of Warmup/Dense; of GitHub's answers, the records `Controller`, `Answers`, `Posts`,
-- `Builds`, `Cancels`, `Setting` and `Executor` of Control; of the source tree that is ported,
-- the record `Tree` of Native/Closure, and of the regular expressions on bindings, the record
-- `Patterns` of Native/Prune; of the process environment, the record `Environ` of Envs; of the
-- device and the libraries on it, `Device` of Moe/Backend; of vLLM's own oracles, the records
-- `Oracle` of Moe/Backend and Moe/Mxfp4, and of its weight packing, `Packing` of Moe; of
-- `PurePosixPath`, `PosixPaths` of Runner/Inputs; and of the commands, files and digests of a run,
-- `RunSetting`, `Artifact` and `Pod` of Runner. Nothing is assumed of them but what a theorem names.
--
-- Not modelled: messages of exceptions; what a first `importlib.import_module` runs and binds, since
-- an import is a lookup of a module that is loaded; `validate_config` and the wheel manifest's
-- `verify`, on which `read_inputs` calls, are among the parameters; the checks that a JSON value has a type, since the types
-- here have it; `discover_catalog`, `validate_config`, `validate_ut_isolation`,
-- `collect_changes` and `main` of the selection, which read sources, git and files; the buffers
-- and scales of the warm-ups; attention, models, quantisation and the kernels, which are tensor
-- programs; `notify` of the controller, the comment of `report`, and its texts; copies of
-- test trees, the regular expression of `runtime_profile`, `scheduler_names` and `main` of the
-- runner; the image stack and the wheel manifest; messages and logs of the oracles; the getters
-- of the settings as a table; the platform class; how files are copied and translated, `_replace_text`,
-- `_drop_includes` and `report` of the porting tool, and the rest of vllm_sail/native; csrc,
-- benchmarks, tools, tests and docs.
pub mod Base
pub mod Patch
pub mod Select
pub mod Warmup
pub mod Control
pub mod Compat
pub mod Native
pub mod Envs
pub mod Moe
pub mod Runner
