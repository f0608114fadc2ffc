-- ===== src/Lib.antt =====
-- A model of the core of Trivy, the scanner of artifacts for vulnerabilities and misconfigurations.
--
-- A scan asks an analysis of the artifact for its packages, applications and configuration files,
-- asks a detector for the vulnerabilities of each, and filters and orders what they report:
--
--   Scanner.antt (pkg/scanner/scan.go)          ScanArtifact and the report
--   Scanner/Local.antt (pkg/scanner/local)      Scan: packages, applications, misconfigurations
--   Detector/Ospkg.antt (pkg/detector/ospkg)    the driver of a family, Detect, RegisterDriver
--   Detector/Ospkg/<Name>.antt                  Detect and IsSupportedVersion of a distribution
--   Detector/Library.antt (pkg/detector/library)    NewDriver, DetectVulnerabilities, Detect
--   Detector/Library/Compare.antt               IsVulnerable and the comparers
--   Detector/Version.antt                       versions as texts, also pkg/scanner/utils
--   ResultClient.antt (pkg/result/result.go)    FillVulnerabilityInfo and Filter
--   Types.antt (pkg/types)                      what is reported, and its order
--
-- A scan may be that of a server, which keeps the packages of an artifact in its cache, and the
-- database is downloaded where it is out of date:
--
--   Rpc/Messages.antt (rpc)                     the messages between a client and the server
--   Rpc/Convert.antt (pkg/rpc/convert.go)       the conversions to and from them
--   Rpc/Server.antt (pkg/rpc/server/server.go)  the handlers ScanServer and CacheServer
--   Rpc/Client.antt (pkg/rpc/client, pkg/cache/remote.go)   Scan, and the RemoteCache
--   Rpc/Retry.antt (pkg/rpc/retry.go)          Retry of a call
--   Rpc/Listen.antt (pkg/rpc/server/listen.go)  the token, update and hotUpdate; in Steps.antt the
--                                               requests and the update as steps that interleave
--   Update/Db.antt (pkg/db/db.go)               NeedsUpdate and Download of the database
--   Update/Policy.antt (pkg/policy/policy.go)   the same of the built-in policies
--   Update/Oci.antt (pkg/oci/artifact.go)       the artifact of a registry
--   Update/Operation.antt (pkg/commands/operation)  DownloadDB and InitBuiltinPolicies
--
-- A command runs a scan and writes its report:
--
--   Commands/Run.antt (pkg/commands/artifact/run.go)    runWithTimeout, with the handles of the cache
--                                               and of the database (Commands/Action.antt)
--   Commands/Artifact.antt (pkg/commands/artifact)  the runs of image, fs, rootfs, repository, config
--   Commands/Option.antt (pkg/commands/option, pkg/commands/artifact/option.go)  Init of the options
--   Commands/Remote.antt (pkg/commands/option/remote.go)  the headers that a client sends
--   Commands/Plugins.antt (pkg/commands/plugin)  the subcommands on plugins
--   Plugin.antt (pkg/plugin/plugin.go)          plugins and their platforms; in Install.antt the
--                                               operations, with pkg/downloader and CopyFile of
--                                               pkg/utils
--   Report/Writer.antt (pkg/report/writer.go)   the choice of a writer; JSON and templates
--   Report/Table.antt (pkg/report/table.go)     TableWriter: rows, counts and summary
--   Report/Sarif.antt (pkg/report/sarif.go)     SarifWriter: rules and results
--   Report/Cyclonedx.antt (pkg/report/cyclonedx)  the components of a BOM; in Convert.antt the BOM
--   Purl.antt (pkg/purl/purl.go)                NewPackageURL
--   External.antt                               the data of fanal and trivy-db that all these use
--
-- Base.antt passes on the library's names and has the shared parts: strings as lists of code
-- points, dictionaries as association lists with distinct keys, sorting, instants, and results with
-- an error or a panic. A file Laws.antt, or one named for what it proves, stands below the file with
-- the definitions; Tests.antt has the theorems at concrete inputs, on the data of Samples.antt.
--
-- A function has the name of the Go function in small letters with underscores, and a record has the
-- fields of the Go struct that the modelled code reads or writes. A loop that appends to a slice is
-- `collect`, if its body may return an error, or `choose`. A Go map is an association list; where
-- the program iterates over one the order is a parameter. Each loop goes through a list, but for the
-- decimal digits of a number (Base/Text.antt), which has the number's successor as fuel: a number has
-- no more digits. Numbers are unbounded where the program only counts; the epoch of a package is the
-- pattern of its 64 bits, which a message cuts to 32. An operation on files or on a cache takes their
-- state and returns it; below Rpc and Update an error comes without a state, below Commands and Plugin
-- with one (Base/State.antt).
--
-- The libraries that parse and compare versions, trivy-db and its advisories, the engine of
-- policies, the clock, the analysis of an artifact, sort.Slice, the timestamps and values of
-- protobuf, the calls of twirp, the registry, the files and the cache are parameters, with what a
-- theorem needs of them as a hypothesis. So are go-sarif, cyclonedx-go, the identifiers of a BOM, the
-- colors of a table, packageurl-go, the encoder of JSON, templates, the package backoff, the operating
-- system and the getter of plugins. Logging is left out. Not modelled are the reading of the command
-- line, the connection of the client, the deadline of a run, the start of a server and dependency
-- injection: they only call libraries and what is modelled here; the services of twirp are generated.
pub mod Base
pub mod External
pub mod Types
pub mod Detector
pub mod Scanner
pub mod Rpc
pub mod Update
pub mod Plugin
pub mod Purl
pub mod Report
pub mod Commands
pub mod ResultClient
mod Samples
