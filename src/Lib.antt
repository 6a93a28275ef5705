-- ===== src/Lib.antt =====
-- The covenant signer: a service that checks requests to unbond staked bitcoin and has a wallet sign
-- those that pass.
--
-- The command `start` (cmd/signerCmd.go) reads the settings and the parameters, makes a client for
-- the full node and one for the wallet's node, and starts the server over the signing application.
-- A client (signerservice/client.go) posts the unbonding transaction, the staker's signature, a
-- covenant key and the script of the staking output. The server limits the length of the body, the
-- handler decodes it and counts it, and calls `SignUnbondingTransaction` of the signing application.
-- That checks the transaction's shape, asks the node for the staking transaction and the best block,
-- and the parameters for the height, checks all against each other, and calls the wallet. The
-- handler maps the error, if there is one, to a status and a text.
--
-- Files, with the code that each models:
--   Prelude, Prelude/*      numbers, tests, lists; integers and the machine's integer widths
--   Go, Go/*                of Go and its library: texts, errors, results that may panic, calls that
--                           change a world, encoding/hex, strconv.Atoi
--   Btc, Btc/*              the types and functions of other packages, as parameters: btcd and
--                           btcstaking (Btc), rpcclient, psbt, chainntnfs (Btc/Rpc), the parser of
--                           the global parameters (Btc/Networks)
--   SignerApp/Interfaces    signerapp/expected_interfaces.go
--   SignerApp/Signer        signerapp/signer.go: SignUnbondingTransaction. Checks holds its pure
--                           steps, one function per check; Approval and Validation the
--                           specification, read off docs/validation.md; Flow the order of the
--                           calls; Requests, Signing, Errors, Panics the proofs
--   SignerApp/Calls         signerapp/signer.go again: a call as four pieces, between which other
--                           calls may run; Sound and Concurrent are about any number of them
--   SignerApp/Asked         the record of what a wallet was asked
--   SignerApp/ChainInfo     signerapp/btc_chain_info.go
--   SignerApp/ParamsRetriever  signerapp/babylon_params_retriever.go
--   SignerApp/PsbtSigner    signerapp/btc_psbt_signer.go
--   SignerApp/PrivKeySigner signerapp/btc_priv_key_signer.go
--   SignerApp/WalletErrors  the errors of the two wallets
--   SignerApp/Assembly      the application over the real sources of its answers
--   BtcClient, BtcClient/*  btcclient/client.go: the connection, the status of a transaction, the
--                           calls of the node, the choice of inputs, transactions that the node's
--                           wallet funds
--   Utils                   utils/btc.go
--   Config, Config/*        config/*.go; Config/Network is config/btc.go. Template is the text of the
--                           settings' file with a reader of it, Files its reading and writing
--   Observability/Metrics   observability/metrics/signer.go
--   Observability/Endpoint  observability/metrics/prometheus.go
--   Observability/Registry  what both take of prometheus, as a parameter
--   Observability/Tracing   observability/tracing/tracing.go, and contexts
--   SignerService/Types     signerservice/types/*.go
--   SignerService/Handlers  signerservice/handlers/*.go; Interleavings holds the steps of concurrent
--                           requests
--   SignerService/Http      what the service takes of net/http and encoding/json
--   SignerService/Responses signerservice/http_response.go
--   SignerService/Middlewares  signerservice/middlewares/*.go
--   SignerService/Router    what the server takes of chi and net/http, as parameters
--   SignerService/Server    signerservice/server.go; Routes is about the whole handler of a server,
--                           Logs about the two lines around it, Asked and Lifetime about what a
--                           wallet is asked over many requests
--   SignerService/Client    signerservice/client.go; Network is a transport to one server under a URL
--   Cmd, Cmd/*              cmd/*.go: the bodies of the commands; Root has main.go and the root
--                           command; Service is about a whole running service, Client and Delivery
--                           about a client of it
--   Itest/Containers        itest/containers/*.go; Retries and Tried are about the loop of ExecCmd
--   Itest/Node              itest/bitcoind_node_setup.go
--   Itest/Docker, Itest/Testify  what these take of dockertest, as a parameter, and of testify
--   Tests, Tests/*          runs on a small chain, and each theorem at such an input
--
-- A function that only computes returns an `Outcome`: a value, an error or a panic. A call that
-- reads or changes something outside is an `Exec`: from a world to an outcome and the next world.
-- The world is any type; the nodes, the files and the wallet are functions on it. The counters stand
-- beside it in the handler's state. Texts and byte strings are lists of numbers. A name of the code
-- is kept in snake_case, its misspellings included (`nofitier_state_to_client_state`).
--
-- Bounds: a `uint16`, `uint32` or `int64` is a number or integer with its range as a hypothesis,
-- and the operations of the code wrap around as the machine's do. Fuel stands in three places. The
-- decimal digits in Go/Text: a number has fewer digits than its successor counts, and
-- Go/Text/Decimal reads every number back from its digits. The pieces of a call in SignerApp/Calls:
-- four make up the whole function. The attempts of `require.Eventually` in Itest: the number for
-- which there is time is an argument, and the theorems hold for each.
--
-- Requests run at once in the code. They share the counters, each increment of which is atomic, and
-- the nodes. SignerService/Handlers/Interleavings has the counters, and SignerApp/Calls the calls of
-- the signing application, under any interleaving; elsewhere a request is followed from the world
-- that it starts in to the one that it leaves.
--
-- Not modelled: deadlines; the log, but for the two lines about each request; what net/http does to
-- listen and to shut down, which are parameters, as are cobra, viper, chi, prometheus, dockertest,
-- the file system, the clock and the source of UUIDs; mocks, which are generated, and the test cases
-- (itest/e2e_test.go, signerapp/signer_test.go), which have no logic of their own.
pub mod Prelude
pub mod Go
pub mod Config
pub mod Btc
pub mod BtcClient
pub mod Utils
pub mod SignerApp
pub mod Observability
pub mod SignerService
pub mod Cmd
pub mod Itest
pub mod Tests
