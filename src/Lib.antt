-- ===== src/Lib.antt =====
-- aspect-gazelle: Gazelle extensions that generate BUILD files, and the runner that watches a
-- workspace for them.
--
-- Base            what the parts share: tests, lists, texts as lists of bytes, association lists for
--                 Go's maps, integers, and Base/Exec: methods that change an object and may return
--                 an error, of which the state comes back in both cases. Base/Exec/Triple has the
--                 rules for what holds after such a method, with or without an error.
-- Ibp             runner/pkg/ibp (protocol.go, client.go) over runner/pkg/socket/json.go. Ibp/Caps
--                 has the versions and readCapsRequestMap; Ibp/Message the structs and their JSON;
--                 Ibp/Socket the connection; Ibp/Server aspectBazelProtocol, one definition for each
--                 method; Ibp/Client and Ibp/Cycle incClient, with Connect and the iterator of
--                 AwaitCycle. Ibp/Json is what encoding/json decodes into `any`. A socket holds the
--                 messages that will arrive and those that were written, and `faulty n` tells whether
--                 the n-th write fails, so a statement about all `faulty` covers every failure of the
--                 connection. A Go map is a list of its entries in the order in which it is read.
-- GoPath          Clean, Join, Split and Dir of Go's package path, and Rel of filepath.
-- Node            language/js/node/paths.go.
-- Pnpm            language/js/pnpm/workspace.go, and findPackage of language/js/resolve.go. A pointer
--                 to a project is its path and one to a workspace its number. The loops of GetProject
--                 and Get run on fuel, the length of the path: each step goes to a shorter path.
--                 Pnpm/Lockfile is the parsing of a lockfile, pnpm/parser*.go, over decoded YAML.
-- Cache           common/cache: the entries of filecompute.go, Cache/Disk the hash check of disk.go,
--                 Cache/Watch watch.go. The hash, the file system and the loaders are parameters.
--                 A call is one step: what happens between goroutines within a call is not modelled.
-- Glob            common/glob.go: Glob.antt has the matchers and the expressions that sort the
--                 patterns. doublestar's MatchUnvalidated and ValidatePattern are the parameters
--                 `matches` and `valid`. The cache of parsed patterns is not modelled.
-- TsConfig        language/js/typescript/tsconfig.go: the options and mergeBaseConfigs. TsConfig/Merge
--                 lists the options that are not rebased, as `Setting`.
--                 TsConfig/Json is parseTsConfigJSON for decoded JSON and known bases, TsConfig/Load
--                 the reading of the files that are extended: its fuel bounds the depth, and is enough
--                 where it exceeds the number of files that are not parsed yet. TsConfig/Expand is
--                 ExpandPaths, where what has no value is the panic of a slice.
-- Rules           common/rule/rules.go: collisions with rules of a BUILD file, and their removal.
-- Cancel          common/error.go: the errors that cancel a run, and the check that reports them.
-- JsConfig        language/js/config.go: the settings of a directory and what those below inherit;
--                 JsConfig/Groups the target groups, JsConfig/Naming the names of targets,
--                 JsConfig/Imports ignored and resolved imports, JsConfig/TsConfigs the settings of
--                 tsconfigs, JsConfig/Directives readDirectives and Configure of
--                 language/js/configure.go. label.Parse and the matching of doublestar are parameters.
--                 What a misconfigured directive leads to is a value of the model, Stop.
-- JsImports       language/js/generate.go: kinds of files, toImportPaths and toImportSpecPath;
--                 JsImports/Protos the imports of ts_proto_library of language/js/resolve.go.
-- Sources         ExpandSrcs of common/rule/glob.go, and the lines of .bazelignore of
--                 common/bazel/bazelignore.go.
-- Labels          LabelComparator and the labels that a LabelSet is given, of common/set.go.
-- PackageJson     language/js/node/package.go: ParsePackageJson and the resolution of subpaths.
-- Resolve         language/js/resolve.go: resolveImport, Resolve/Collect resolveImports, Resolve/Rule
--                 Resolve, Resolve/Imports Imports and Embeds, Resolve/Packages CrossResolve with
--                 getPackageJson and packageScopeDir of language/js/generate.go, and
--                 Resolve/FileLabels its addFileLabel. A label set is the list of what was put into
--                 it. TsConfig/Workspace is FindConfig of language/js/typescript/config.go; its loop
--                 and that of packageScopeDir run on fuel, the length of the path, and each step goes
--                 to a shorter path.
-- Watchman        runner/pkg/watchman: watch.go, with the loop of Subscribe in Watchman/Subscribe, and
--                 cache.go in Watchman/Cache.
--
-- Parameters stand for code outside the repository: crypto/md5 is `hash`, of which the theorems that
-- compare contents ask that no two contents have one hash; the trace in a context is a SpanContext.
-- doublestar, label.Parse, Rel and Equal of labels, semver, and what jsonc and yaml decode of a file
-- are parameters as well; so are the rule index of gazelle, and what watchman answers to a call.
-- Writing and reading the gob files of the caches, rule generation, the other languages
-- and the copy of gazelle under runner/vendored are not modelled.
pub mod Base
pub mod Ibp
pub mod GoPath
pub mod Node
pub mod Pnpm
pub mod Cache
pub mod Glob
pub mod TsConfig
pub mod Rules
pub mod Cancel
pub mod JsConfig
pub mod JsImports
pub mod Sources
pub mod Labels
pub mod PackageJson
pub mod Resolve
pub mod Watchman
