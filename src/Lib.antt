-- ===== src/Lib.antt =====
-- The cluster inventory API: the ClusterProfile types, the package that builds client configurations
-- from them, the credential plugins that such clients call, and the conformance suite that observes an
-- inventory of them.
--
-- Parts and files:
--   Common        shared helpers: Boolean tests, lists, integers, fallible results, text, sorting.
--   Apis          the records of apis/v1alpha2, as far as the program reads them. A Go map is an
--                 association list, a nil slice that the code tells from an empty one is `none`.
--     DeepCopy    apis/v1alpha2/zz_generated.deepcopy.go: DeepCopyInto of a ClusterProfile on a memory of
--                 arrays, where a slice is nil or an address. DeepCopy/Layout says what a part of a
--                 memory denotes, and through which addresses.
--   Access        pkg/access: exec configs, providers, rest configs, and the decoder and converter
--                 that the code calls (`Toolkit`).
--     Store       the exec configs behind pointers: a pointer is an address, DeepCopy allocates.
--     Extensions  processClusterProfileSourcedCLIArgData and ...EnvVarData. The write to a nil map is
--                 the result `panicked`.
--     Build       BuildConfigFromCP and the choice of the accessor and the exec config. A call returns
--                 the store it leaves beside its result.
--   Plugins       pkg/credentialplugin/core.go: readExecInfo and Run, whose value is the line that Run
--                 writes. A []byte, and a Go string made of one, is its list of bytes. The encoder of
--                 an ExecCredential and the name of its version are parameters.
--     SecretReader, KubeconfigReader
--                 GetToken of plugins/secretreader and plugins/kubeconfig-secretreader; the secrets,
--                 the JSON decoders and the kubeconfig loader are parameters. Lookups and Users say
--                 which secret, which kubeconfig and which of its users the credentials are of.
--   Seed          hack/conformance-seed/main.go: objectNamePrefix; strings.ToLower is a parameter.
--     Objects     run and seedClusterProfile over a `Server` of one namespace. Owned names its laws,
--                 Memory is a server that keeps them, Checked and Conforms take what is seeded to
--                 the checks.
--   Clients       client/informers/externalversions/factory.go: the shared informer factory. Every
--                 method is one step under the lock; `perform_all` is a sequence of steps, and gives
--                 the goroutines begun.
--   Conformance   the suite, conformance/*.go:
--     Types       types.go: the report's schema, the options.
--     Errors      every error of the suite as a value, and its text.
--     Catalog     catalog.go: the catalog of checks and the features that may be claimed.
--     Summary     catalog.go: gate, summarize, combine and overall. The loop of summarize is `tally`.
--     Options     suite.go: defaults and validateOptions with what it calls.
--     Checks      checks.go: check, checkUniqueness and checkFields on a snapshot; the snapshot,
--                 outcome and checkAPI are in Checks/Discovery. Checks/Readings describes by a
--                 requirement's ID when a profile breaks it and when it does not report on it.
--     Report      report.go: ValidateReport with validateProfile, validateSubmission and
--                 validateMetadata (Report/Metadata). A chain of early returns is `first_error`
--                 of its steps.
--     Suite       suite.go: newReport and connect (Suite/Begin), Run and finish. A run is a function
--                 of a `Platform` (what the standard library gives) and a `World` (the clock, the
--                 clients' answers, the label filter, the deadline); an early return is a `Stop`
--                 with the report so far.
--     Await       suite.go: awaitDiscovery, its goroutine and its context as a step relation.
--     Flags       suite.go: csvFlag, RegisterFlags and the legacy filter. Setting a flag is a function
--                 of its name and text; the flag package's readers of numbers are parameters.
--     GoTest      suite.go: RunConformance and TestConformance, a run followed by WriteReports.
--     Files       report.go: atomicWrite and WriteReports on a store of files, each call of the
--                 operating system with its error; a write keeps the trace of the store's states.
--     Matrix      report.go: ReadReport (Matrix/Reading) and GenerateMatrix. The walk is a list of
--                 visits, and the tables are `Line`s before they are printed.
--     Command     cmd/report/main.go: the commands validate and matrix.
--
-- Run validates the options, parses the filter, checks the metadata of a submission, connects, waits
-- for the server, reads the inventory into a snapshot, asks Checks for one result for each requirement
-- of the catalog, lets Summary judge them, and for a submission lets Report validate the whole.
--
-- Bounds and fuel: every loop of the source that is modelled runs over a list and is structural
-- recursion. Only the decimal text of a number runs on fuel: n + 1 steps for n, which has fewer
-- digits. The counters of the statistics are natural numbers: they are bounded by the length of a
-- list, which a Go int holds. The expected number of clusters and the timeout are signed. The
-- interleavings of Await and Clients are sequences of steps of any length, without fuel.
--
-- Not modelled: the generated deep copies of lists, of PlacementDecision and of v1alpha1, the
-- clientsets and listers; the HTML template and the YAML encoder (a rendering is a text or an
-- error), the flag package, the parsing of label filters, dates, URLs and YAML, the conversions of
-- client-go, the digest of the catalog, the operating system and the answers of API servers, which
-- are parameters. A run takes what awaitDiscovery gives as the one answer of its world. The
-- programs' main functions, the example programs and the envtest tool only start others.
pub mod Common
pub mod Apis
pub mod Access
pub mod Plugins
pub mod Seed
pub mod Clients
pub mod Conformance
