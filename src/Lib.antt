-- ===== src/Lib.antt =====
-- The SDK that serves the Rosetta (Mesh) API over go-ethereum nodes.
--
-- A server is given a chain's client (`Client` of services/construction/types.go) and answers the data
-- endpoints from it: it fetches a block and its traces from the node, loads the transactions, charges
-- their fees, and maps calls, fees, transfers and token logs to operations that move amounts between
-- accounts. A client of a chain is made by embedding the SDK client of client/, and parses the
-- operations with the mapper of services/mapper.go, as examples/ethereum/client does.
--
-- Which file models what, with paths from the root of the repository:
--   Base, Base/*              lists, signed integers (`big.Int`) and their decimal texts, Go's results,
--                             maps with text keys: what the files below share
--   Rosetta, Geth             the data of the Rosetta API, and what is taken from go-ethereum
--   Types, Types/Errors       types/types.go and types/errors.go
--   Configuration             configuration/configuration.go
--   Client/Data, Client/Utils client/types.go, client/utils.go, client/address.go
--   Client/Tracer             client/tracer.go, and of client/client.go `FlattenTraces` and the loop of
--                             `TraceReplayBlockTransactions`
--   Client/Fees               `GetGasTipCap`, `GetGasFeeCap`, `GetBaseFee` of client/client.go
--   Client/Rewards            `miningReward`, `BlockRewardTransaction` of client/client.go
--   Client/Loaded             `GetLoadedTransaction` of client/client.go
--   Client/Node               `blockHeader`, `decodeHexData` of client/client.go, and what is asked of
--                             the node
--   Client/Balance, Health, Uncles, Estimates
--                             of client/client.go: `Balance`; `Status`; `GetUncles`; `GetNonce`,
--                             `GetGasPrice`, the limits of gas and `GetContractCurrency`
--   Client/Tracing            `TraceBlockByHash`, `TraceTransaction`, `TraceReplayBlockTransactions`,
--                             `TraceReplayTransaction`; Permits has the semaphore of the client as a
--                             step relation on the calls of `TraceBlockByHash` that run at the
--                             same time
--   Mapper/Trace              `TraceOps` of services/mapper.go
--   Mapper/Fee                `FeeOps`
--   Mapper/Transfer           `parseTransferOps` and `TransferOps`
--   Mapper/Erc20              `Erc20Ops`
--   Services/Client           the interface `Client` of services/construction/types.go
--   Services/Block/*          services/block_service.go: Cache (`getCurrencyFromNodeOrCache`), Populate
--                             (`PopulateTransaction`, `populateTransactions`), Fetch (`GetEthBlock`,
--                             `GetBlock`), Endpoint (`Block`, `BlockTransaction`)
--   Services/Account, Network, Ready
--                             services/account_service.go, services/network_service.go
--   Construction/*            of services/construction: Describe (`CreateOperationDescription`), CallData
--                             (contract_call_data.go), Preprocess, Metadata, Payloads, Parse and
--                             TransferData (parse.go, with `GenerateErc20TransferData` of
--                             client/utils.go), Endpoints (parse, combine, hash, submit, derive),
--                             Data (client/types.go, utils.go); Library has what is taken from other
--                             packages, Flow what becomes of a transaction between the endpoints
--   Client/Tracer/Decode      `UnmarshalJSON` of client/tracer.go; Client/Mint: `GetMint`
--   Client/Defaults, Sdk      the methods of the SDK client that a chain overrides; the SDK client with all
--                             its methods, as a client of the services
--   Ethereum, Ethereum/Client examples/ethereum/client/client.go; Ethereum/Served and Ethereum/Mined join it
--                             to the services
--   Ethereum/Config           `LoadConfiguration` of examples/ethereum/config/config.go
--   Client/Connect            `NewClient`, and `GetTraceConfig` of client/tracer.go
--   Bootstrap                 of utils/bootstrap.go: which client is served; Bootstrap/Main:
--                             `NewEthereumClient` and `main` of examples/ethereum
--   Tests/*                   the theorems at concrete inputs
--
-- State and errors. A Go function with an error is a `Result`: a value, an error, or `crash`: a panic (a
-- nil dereference, an index out of range), from which net/http recovers in a handler, so that the request
-- is not answered, or `log.Fatal`, which ends the process. The loops of the mapper carry
-- a state record; operations that are shared by pointer live on a heap, and a pointer is a position in
-- it. Actions that use the currency cache return the cache as well, also when they fail. A map is an
-- association list with each key once; where Go ranges over a map, the order is a parameter.
--
-- Integers. `big.Int` is the unbounded ℤ; `Uint64`, `Int64` and the timestamp in milliseconds keep their
-- wrap-around. Block numbers and the indices of operations are below 2^63 and are natural numbers.
--
-- Fuel and bounds. The bytes of a number are made on fuel, the number itself, which is enough since
-- each step divides by 256. A number is rounded to the 53 bits of a float on fuel that lasts up to 2^180,
-- more than the product of two int64. All other loops are structural.
--
-- Parameters. go-ethereum's addresses, hashes, signers and ABI packing, JSON, the matching of operations
-- of rosetta-sdk-go, the LRU cache of hashicorp, the Keccak hash and the node itself are parameters; what
-- is used of them stands as a named hypothesis: `ReadsHex` (the text of an address is a valid text of
-- it), `IsReadAs` (a valid text is read alike by both readers), `CacheLaws` (a key that is found was put
-- there), `KeepsAddress` (an address of 20 bytes is read back from its bytes), `KeepsTransactions`,
-- `KeepsSigned` and `Decodes` (what was written is read back, and a signed transaction has the receiver,
-- the data and the value of the one signed, zero for none), `IsSignedBy` (the sender that is recovered
-- is the account that signed), `AnswersEach` (a batch has an answer for each request), `ReadsNumbers`
-- and `PacksTransfers` (decimal texts, and the ABI encoding of an address and a number).
--
-- Not modelled: the HTTP and RPC connections, the router and the server that `BootStrap` starts,
-- generated contract bindings and mocks.
pub mod Base
pub mod Rosetta
pub mod Geth
pub mod Types
pub mod Configuration
pub mod Client
pub mod Mapper
pub mod Services
pub mod Construction
pub mod Ethereum
pub mod Bootstrap
pub mod Tests
