-- ===== src/Lib.antt =====
-- A verification library for Falcon-Smart-Account: an ERC-4337 entry point with accounts that are
-- owned by a Falcon key, and the TypeScript tooling that makes, signs, bundles and sends user
-- operations.
--
-- How the parts interact: the tooling of test/UserOp.ts fills an operation from a partial one and
-- the answers of a node, signs its hash and packs it; src/AASigner.ts makes operations of ordinary
-- transactions, awaits their events and queues them for bundles; src/Create2Factory.ts deploys
-- contracts at addresses known in advance, which the filling of operations relies on;
-- contracts/core/EntryPoint.sol unpacks what the tooling packed, validates and executes bundles, with
-- contracts/core/NonceManager.sol for nonces and contracts/core/StakeManager.sol for deposits; scripts/anvil-falcon-tx.ts decodes a Falcon key for an account and sends a transfer that
-- the key signs; gascalc/GasChecker.ts measures the gas of bundles, and src/runop.ts
-- sends two operations of one account.
--
-- Files and sources:
-- - Prelude with its children: shared names, Boolean tests, lists, big-endian bytes. No code of the
--   repository.
-- - Js (Hex, Number): the JavaScript strings and numbers that the sources use: hexadecimal text,
--   parseInt with base 16, and doubles that hold whole numbers (1024 scales cover all of them).
-- - Outcome: exceptions and rejected promises as values.
-- - Ethers: the functions of the ethers library that are called, with the documented laws that are
--   relied on; Ethers.Reference is an instance that meets the laws (its hash is a constant).
-- - UserOp: test/UserOperation.ts (Types), packAccountGasLimits, unpackAccountGasLimits and
--   packPaymasterData of test/testutils.ts and packUserOp of test/UserOp.ts (Pack), callDataCost
--   (Cost), fillUserOpDefaults, encodeUserOp, fillUserOp and fillAndPack (Fill), getUserOpHash,
--   signUserOp, fillAndSign and fillSignAndPack (Sign). Bytes, RoundTrip, Keeps, Deployer and
--   Signed hold the proofs. A key of a partial operation is an option; a number is its value.
-- - Create2: getDeployedAddress and getDeployTransactionCallData (Address), deploy, deployFactory and
--   _isFactoryDeployed (Deploy) of src/Create2Factory.ts over a chain with any state; Once holds the
--   proofs.
-- - EntryPoint: _copyUserOpToMemory and _getRequiredPrefund of contracts/core/EntryPoint.sol with
--   contracts/core/UserOperationLib.sol (Memory), contracts/core/NonceManager.sol (Nonce) and
--   contracts/core/StakeManager.sol (Stake, with calls as a step relation); ReadBack, Nonce.Next,
--   Nonce.Grows and the children of Stake hold the proofs. A sequence number is a natural number,
--   taken not to reach 2 ^ 256. Hash has encode and hash of contracts/core/UserOperationLib.sol and
--   getUserOpHash over a Keccak that is a parameter, with the proof in Hash.Agrees.
-- - EntryPoint.Bundle: handleOps and handleAggregatedOps of contracts/core/EntryPoint.sol. Outside has
--   the state (deposits and stakes, nonces, and a world of any type), the code of others as a
--   parameter that may call back (Request) and the gas used between two readings of gasleft() as an
--   input (Meter). Ether may also be forced on the contract without a call of it; the state counts it
--   (forced), and no function of the contract reads the count. Validate, Execute and Handle have the functions of the contract. Code that reverts
--   throws, and a caller that does not catch throws too, so that nothing of it is left. The memory
--   offset of a context is the context. Rules and Raises are for reasoning about such code; Bounds,
--   Keeps, Spends, Solvent and Groups follow the ether, Monotone, Once and Replay the nonces, and
--   Reverts what can revert a bundle.
-- - Signer: queueUserOpSender and sendQueuedUserOps (Queue), rpcUserOpSender and localUserOpSender
--   (Send), syncAccount, connectAccountAddress, getAddress, isPhantom, getAccount and
--   _createUserOperation (Account), userEventResponse (Response) and sendTransaction (Transaction) of
--   src/AASigner.ts. Queue.Runs has the interleavings of calls, pushes and settled bundles as a step
--   relation; the flag sending, which all queueing senders share, is that of the one sender. Response
--   has the calls of the event listener as a step relation, each from one await to the next; what a
--   filter makes of a value, and the node's answers to each call, are parameters, and Meaning, Keeps
--   and Settles hold the proofs.
-- - TestUtils: findMin (FindMin), parseValidationData and packValidationData (Validation) of
--   test/testutils.ts, the latter with _parseValidationData of contracts/core/Helpers.sol.
-- - Falcon: decodePk (PublicKey) and decompressS2 (Signature) of scripts/anvil-falcon-tx.ts over
--   32-bit words (Word). Checked has the decoders of decode-final.js, which refuse what is not well
--   formed; Checked.Codec is the compressed format told on bits (BitStream), and Reads, RoundTrip,
--   Canonical, Simulation and Keys hold the proofs. Serial has the decoders of decode-full.js and
--   decode-falcon.js that read bit by bit, LowFirst the readers of keys of decode-falcon.js and
--   investigate.js; Differs and Value hold the proofs.
-- - GasCheck: createAccounts1 (Accounts, with the proofs in Created), runTest (Run, Run.Scenario), the
--   report's table (Report), addTestRow (TestRow) and the collector that overlapping calls of init
--   share (Singleton, a step relation) of gascalc/GasChecker.ts. What each callback of Promise.all
--   finds saved, and the order of the answers, are arguments of runTest; where several callbacks
--   throw, the model has the first in the order of the accounts, and random destinations are paid
--   before the operations are made.
-- - Transfer: main of scripts/anvil-falcon-tx.ts, over a backend of contracts and a kernel, with calls
--   that change a state and may throw (Action); Signed holds the proofs.
-- - Runop: src/runop.ts over deployments, a node and contracts (Main, with evInfo in Events), with the
--   account signer and the senders of Signer; Js.Decimal has decimal texts and their order, and
--   Prefund the proof.
-- - Examples: the theorems at concrete inputs.
--
-- Bounds and fuel: the loop of findMin has fuel; a range of width w needs at most w rounds when delta
-- is at least 2. The inner loop of decodePk is run at most twice, which always fills 14 bits. The
-- unary loop of decompressS2 has fuel, and the loop of readBits runs at most once per bit. In
-- decode-final.js a coefficient of a key takes at most two bytes, and a unary count at most 16 rounds,
-- since the 16th already goes past 2047. The unary count of the decoders that read bit by bit has fuel
-- and throws when it runs out, where the source would go on. All other loops are structural.
--
-- Not modelled: the ethers library, ECDSA and Keccak (parameters); the node and the chain
-- (parameters); paymasters and accounts; the Falcon verification contracts; tests, deployment and demonstration scripts; logging.
pub mod Prelude
pub mod Js
pub mod Outcome
pub mod Action
pub mod Ethers
pub mod Create2
pub mod UserOp
pub mod EntryPoint
pub mod Signer
pub mod TestUtils
pub mod Falcon
pub mod Transfer
pub mod Runop
pub mod GasCheck
pub mod Examples
