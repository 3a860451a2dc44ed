-- ===== src/Lib.antt =====
-- Local TLS for a machine agent: a private CA and a server certificate for the loopback names,
-- whose keys live in the CNG key provider and whose CA is an anchor in LocalMachine\Root.
--
-- Parts, and where they are modelled:
--   Material.antt      provision.go: `Material`, `Close`, `provisionStateInconsistent`
--   Provision.antt     provision.go: `provisionWithKeyStore`, `firstProvisionWithKeyStore`,
--                      `reloadWithKeyStore`, `loadCASigner`, `loadServerSigner`
--   Files.antt         provision.go: `fileExists`, `allFilesExist`, `anyFileExists`, `atomicWrite`
--   Certificate.antt   certificate.go: templates, issuing, serial numbers, CA lifetime, key match;
--                      Certificate/Times.antt: the times and the renewal test;
--                      Certificate/San.antt: `validateSAN` of provision.go
--   Machine.antt       composition_windows.go and machinepath_windows.go: `ProvisionMachine`,
--                      `ReloadMachine`, `LoadServingMaterial`, `checkInconsistentMachineState`
--   Legacy.antt        provision.go, certificate.go and protector.go: `Provision` with exported keys
--   KeyStore.antt      keystore.go and keystore_windows.go
--   TrustStore.antt    truststore.go: the trust states and the interface;
--                      TrustStore/Contract.antt: what a store promises over its list of anchors
--   WinRoot.antt       truststore_windows.go: the trust store over CryptoAPI
--   Cleanup.antt       cleanup.go and cleanup_windows.go
--   Runes.antt         Go strings as code points: trimming, letter case, search
--   Fingerprint.antt   truststore.go: `ParseSHA256Fingerprint`
--   TestKeys.antt      verify_windows.go: the operations on test keys and the signing test
--   Smoke.antt         smoke_windows.go: `ProvisionSmoke`, `CleanupSmoke`, the preflight
--   VerifyCommand.antt cmd/verify/main.go: the handlers and their exit codes
--   Examples.antt      examples/serving, examples/provision, examples/fingerprint: the calls of `main`
--   Identity.antt      internal/identity/identity.go and the file names of provision.go
--   Errors.antt        Go's error values, `errors.Is`, `%w`
--   Host.antt          what the package builds on: byte strings, X.509, SHA-256, the states of the
--                      key provider and of the certificate store
--   World.antt, Os.antt   the state and the monad; the calls of package os
--   Base.antt          library names, Boolean tests, integers
--   Tests.antt         a small provider and store to run the model on, runs and examples
--
-- State. A function of the program is a function from a `World` to a value or an error and the next
-- `World`: files, open descriptors, the random source, a schedule of failures that each call of the
-- operating system consults, the clock, `%ProgramData%`, and the two external states. `defer` and
-- `if err != nil` are the combinators of World.antt. World/Keeps.antt has rules for what a function
-- leaves alone, World/Ledger.antt for open handles, World/Hoare.antt for pre- and postconditions,
-- World/Total.antt for functions that cannot fail, WinRoot/Ends.antt for the trust store's own state.
--
-- Interaction. ProvisionMachine runs the pre-check and then provisioning; LoadServingMaterial and
-- ReloadMachine read what provisioning wrote; CleanupMachine removes it. All four reach the keys
-- through KeyStore.antt and the anchors through the interface in TrustStore.antt. The smoke path runs
-- the same provisioning over a key store of test keys, and the verify command calls the test
-- operations and the trust store.
--
-- Parameters. The package windowscng, the X.509 routines and the digest are fields of records; a
-- theorem that relies on their behaviour names it: `Closes` and `OpensCng` say which handle a call
-- opens or releases, `NamesOnly` that a call changes the key of its name at most, `Deletes` that a
-- deletion leaves no key, `Provides` that keys can be made and sign and that a store that is ready
-- takes what can be parsed, `IsReadOnly` that opening a key, closing a handle and verifying trust
-- leave keys and anchors, `Enumerates`, `Opens`, `Releases` and `Edits` what CryptoAPI does,
-- `IsTrustStore` what a trust store promises, `Recovers` that unprotecting and parsing give a key
-- back. The platform stores, which cannot fail
-- on Windows, stand for their results.
--
-- Bounds. Times are integers without bound, and `Time.Sub` is held within an int64. The loop of
-- `randomSerial` recurs over the coming reads of the random source; that of `findCertBySHA256` has
-- fuel, and more fuel than the store has certificates is enough. Errors keep the constant words of
-- their messages.
--
-- Not modelled: what the commands and examples print; the words for the trust states; the stubs for
-- other systems, which return one error each; directory permissions; what fsync means for a power
-- cut; processes that run at the same time; the cleaning of paths by `filepath.Join`, so that the
-- value of `%ProgramData%` is one segment of a path.
pub mod Base
pub mod Errors
pub mod Host
pub mod World
pub mod Os
pub mod Identity
pub mod Files
pub mod Certificate
pub mod KeyStore
pub mod TrustStore
pub mod WinRoot
pub mod Material
pub mod Provision
pub mod Runes
pub mod Fingerprint
pub mod TestKeys
pub mod Smoke
pub mod VerifyCommand
pub mod Examples
pub mod Machine
pub mod Legacy
pub mod Cleanup
pub mod Tests
