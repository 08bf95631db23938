-- ===== src/Lib.antt =====
-- Midnight.js: the client library that deploys, finds, calls and maintains contracts.
--
-- The program. A caller brings a compiled contract and a record of providers (private state store,
-- zero-knowledge artifacts, proof server, wallet, node, indexer). packages/contracts composes them:
-- it fetches states, runs a circuit locally, builds a ledger transaction, has it proved, balanced and
-- submitted, waits for its finalisation, and on success writes to the private store. packages/utils
-- checks hex strings and contract addresses, packages/network-id holds the network's identifier, and
-- packages/types declares the provider interfaces. Several of the providers are in the repository with
-- logic of their own: packages/level-private-state-provider keeps private states in a database, and
-- packages/indexer-public-data-provider reads states and transactions from an indexer. The fetch and
-- node zk-config providers and the proof server's client send requests and read files.
-- platform-js/platform-js has the ranges, hex brands, keys and identifiers of a second toolkit, and
-- compact-js/compact-js the executable form of a contract on top of them. compact-js/compact-js-command
-- is its command line: it compiles a configuration, reads arguments by the types of the contract's
-- declaration, calls an operation of the executable contract, and writes what comes of it to files.
--
-- The files.
--   Hex             packages/utils/src/hex-utils.ts and type-utils.ts: parseHex, toHex, fromHex,
--                   isHex, assertIsHex, assertIsContractAddress.
--   NetworkId       packages/network-id/src: the identifier and its conversions.
--   Contracts
--     Runtime       what the ledger, the compact runtime and the wallet's address format give.
--     World         the state, the errors (packages/contracts/src/errors.ts) and the providers
--                   (packages/types/src).
--     Zswap         packages/contracts/src/utils/zswap-utils.ts
--     LedgerTx      packages/contracts/src/utils/ledger-utils.ts
--     Call          call.ts and call-constructor.ts of packages/contracts/src
--     States        get-states.ts
--     Submit        submit-tx.ts
--     UnprovenCallTx, CallTx   unproven-call-tx.ts, submit-call-tx.ts and tx-model.ts
--     DeployTx      unproven-deploy-tx.ts, submit-deploy-tx.ts
--     Maintenance   submit-insert-vk-tx.ts, submit-remove-vk-tx.ts, submit-replace-authority-tx.ts
--     Find          find-deployed-contract.ts, up to its interfaces
--     Interfaces    tx-interfaces.ts, deploy-contract.ts, and the rest of find-deployed-contract.ts
--   PrivateState    packages/types/src/private-state-provider.ts: its requests and the two maps
--     Level         packages/level-private-state-provider/src/level-private-state-provider.ts
--   Indexer         packages/indexer-public-data-provider/src/indexer-public-data-provider.ts: its data
--                   and errors, and the GraphQL client
--     Streams       the operators of RxJS and zen-observable that it uses
--     Queries       its queries and watches
--     Observables   contractStateObservable
--     Wrapper       indexerPublicDataProvider, which checks addresses
--   Artifacts       the providers of packages/fetch-zk-config-provider/src,
--                   packages/node-zk-config-provider/src and packages/http-client-proof-provider/src
--   Platform        platform-js/platform-js/src/effect
--     IntegerRange  IntegerRange.ts
--     Hex           internal/hex.ts and Hex.ts
--     Keys          ContractAddress.ts, DomainSeparator.ts, SigningKey.ts, CoinPublicKey.ts,
--                   and the keys of Configuration.ts
--     NetworkId     NetworkId.ts, NetworkIdMoniker.ts, and the network of Configuration.ts
--   Executable      compact-js/compact-js/src/effect/ContractExecutable.ts: its errors, its cached
--                   instance and its maintenance updates
--     Parameters    the compact runtime, the ledger, the compiled contract and the services
--     Operations    its operations
--   Reflection      compact-js/compact-js-command/src/effect/internal/compiledContractReflection.ts:
--                   values and the types of a declaration
--     BigInt        the integers that JavaScript reads in a text
--     Params        transformParams
--     Parser        makeArgumentParser
--   Commands        compact-js/compact-js-command/src/effect
--     Config        ConfigCompiler.ts
--     Files         internal/contractState.ts, the files, and what the handlers fail with
--     Handlers      internal/circuitCommand.ts and internal/deployCommand.ts
--     Maintain      maintainCircuitCommand.ts, maintainContractCommand.ts and maintainCommand.ts of
--                   internal
--   Prelude         shared names, lists and numbers, results, and Exec, the code that changes a state
--                   and may reject.
--   Examples        a small ledger that runs, and each theorem at a concrete input.
--
-- The model. A string is the list of its UTF-16 code units. An asynchronous function is a function
-- from the state to a result and a state: what was written before a rejection stays written. The
-- state (World) is what the program keeps, the network's identifier, the private states and the
-- signing keys, beside everything outside that the providers change (Ext), which is abstract. Each
-- call of a provider, of a contract's circuit or constructor, of the clock and of randomness is an
-- operation of the outside that may change Ext and may reject, but cannot reach the local state. The
-- private state provider is modelled by its interface: two maps, and an access of its medium that may
-- reject; a write that is rejected may have been stored all the same, as when the level provider cannot
-- close its database.
--
-- The ledger, the compact runtime and the address format are parameters (Contracts.Runtime) about
-- which nothing is assumed. So are JSON texts of coins and the Bech32m form of keys. The Level
-- database and superjson are parameters too (PrivateState.Level.Database): what is stored is changed
-- by put, del and clear alone; put and del do all of their work or, if they reject, none, a clear that
-- rejects may have removed some entries, and any operation may reject; a value is read back as it was
-- written.
--
-- An observable is what a subscriber has seen of it: values, and then nothing yet, the end, or an
-- error. The operators act on this, and an error of an outer stream is passed on at once, as RxJS
-- does. The GraphQL client is a parameter: the answer of a query, the answers of a watched query's
-- polls, what a subscription sends. The network's identifier does not change while one call runs.
--
-- In the command line JSON5, the number of a text, TypeScript's parser and compiler, paths, the schemas
-- of Effect and the ledger's intents are parameters. A JavaScript number is the bits of its double.
-- Of an object's properties its own are modelled, not those it inherits, nor an array's length as a
-- property. An access of the files may fail; what a write that fails leaves in its file is a parameter,
-- so the commands' theorems speak of the writes that were completed. ts-node and the import are given
-- the files; the theorems on configurations assume that of these they read others than the source and
-- the output only, that no access fails, and that only the source is edited. A configuration is compiled
-- in a process of its own, where import() has cached nothing.
--
-- An effect of compact-js is such a function too. What its code throws where nothing catches is a death
-- (died), which is kept apart from its errors.
--
-- Loops are structural recursion on lists, streams and types, so there is no fuel and each function is total.
-- Numbers are natural numbers, and in ranges integers; JavaScript's are these up to 2^53 - 1, and a
-- theorem whose result depends on that says so. The
-- arithmetic of the modelled code is on lengths, counters and the bounds of ranges.
--
-- Kept apart from the source: an option that is present with the value undefined is read as absent;
-- the fetches that the source starts together with Promise.all run in the order in which it lists
-- them; the messages of errors are constructors of a data type.
--
-- Not modelled: fetch, its retries and the file system, which are parameters; the construction of the
-- Apollo client; the logger; the compiler's launcher; the builder of compiled contracts, the file
-- readers and the supply of services of compact-js; the options and the printing of errors of its
-- command line, and the host of TypeScript's language service; the reading of platform-js's
-- configuration; testkit-js, whose store in memory keeps signing keys in a plain object.
pub mod Prelude
pub mod Reflection
pub mod Commands
pub mod Hex
pub mod NetworkId
pub mod Contracts
pub mod Platform
pub mod Executable
pub mod PrivateState
pub mod Indexer
pub mod Artifacts
pub mod Examples
