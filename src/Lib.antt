-- ===== src/Lib.antt =====
-- MonadGuard: a scanner of skills and MCP manifests, the receipts that it signs, the store and the
-- worker that anchor them on a chain, the API in front of them, and the client that decides by the
-- registry whether an agent may connect to a tool.
--
-- Parts and files
--   Base          lists, texts and stable sorting over the native numbers. A text is the list of its
--                 UTF-16 code units; toLowerCase is modelled on the ASCII letters.
--   Scanner       Rules and Engine are RULES and scan of server/scanner/engine.js; Mcp and its children
--                 are server/scanner/mcp.js (Rules is MCP_RULES, Texts extractTextFromManifest,
--                 Shadowing checkToolShadowing, Levenshtein the edit distance, examine and scan_mcp are
--                 scanMCP); Free is freeScan of server/free_scan.js; Finding and Result hold what a scan
--                 reports.
--   Receipt       server/receipt.js: toVerdict, toGate and buildReceipt; Base64 is b64url and its decoder,
--                 Jws is canonical, receiptHash, signReceiptJws, verifyReceiptJws, decodeReceipt and
--                 jwks, Digests is anchorDigest, registrationDigest, signDigest and precompileInput.
--   Identity      toolId and contentHash of scripts/toolid.mjs, which client/index.js repeats.
--   Client        client/index.js: Lookup is lookup, Check is check with candidatesFor and adoptOne,
--                 Gate is gate. A throw of MonadGuardBlocked is the outcome `blocked`. Cli is
--                 client/cli.mjs, and Agent the two tools of client/mcp.mjs.
--   Store         the tables of server/schema.sql as lists, and the statements of server/db.js as
--                 functions on them.
--   Worker        server/worker.js: toScanInput, drainOnce, drainOneByOne and tick over the store, the
--                 backoff and the count of failures.
--   Server        server/index.js: Anchor is POST /anchor and /anchor/queue, Scan is POST /scan, Rpc is
--                 POST /rpc, RateLimit is limited and rl, Faucet is POST /faucet, Receipts is POST
--                 /receipt, GET /receipt/:hash and POST /anchor/digest, Registry is the routes of
--                 /registry, with the advice of server/recs.js; Envio is the choice of the index in
--                 server/envio.js; Chain is server/chain.js. A handler takes the store and the request,
--                 and gives the store and the response.
--   Keys          deriveAttestorKey of scripts/attestor.mjs, deriveEvmPrivateKey of web/src/passkey.js, and
--                 loadAttestor of server/keys.js.
--   Operator      Survey is scripts/survey.mjs and Capture scripts/anchor-capture.mjs: what they post to
--                 the anchor.
--   Passkey       web/src/passkey.js: the state of the page, and what it uploads and sends.
--   System        the handlers and the worker together: Writes is a sequence of statements of the store,
--                 Registry the registry that the store stands for, with the steps of the node.
--   Interop       checkReceipt of scripts/receipt-checks.mjs.
--   Secrets       what blocks a commit in scripts/check-secrets.mjs.
--   Examples      the theorems at concrete inputs.
--
-- How the parts interact: POST /scan runs a scanner, builds a receipt of the result and inserts a row
-- into the store; POST /anchor and the worker send rows to the chain and write down the outcome; the
-- client reads what was anchored and gates on it. The worker and the handlers share the store only.
-- In System each handler and each tick is a sequence of its statements, and what is shown there for
-- sequences holds in whatever way they take turns. POST /faucet waits between its checks and its
-- write, so that it takes the store at both.
--
-- Parameters: the regular expression engine (a pattern is kept as the text of the source), JSON,
-- keccak256, SHA-256, P-256 and the canonical form, viem, the chain, the replies of the two indexes and
-- of the registry. Where such a call may throw, the parameter gives an Option and `none` is the
-- exception.
--
-- Bounds: numbers of the source are natural numbers here. Times are seconds or milliseconds as in the
-- source, scores are at most 100. Every loop runs over a list and is structural recursion; only the
-- hexadecimal digits of a number are computed on fuel, one more than the number, which Hex shows to be
-- enough. The length of a manifest is that of its JSON text.
--
-- Not modelled: the routes of the API that report its health and serve the site, the indexer in
-- TypeScript, the contract in Solidity, the DOM and the ceremony of the passkey, the parser of .env, the
-- timer of the worker, the texts of messages and reports, and the scripts that only fetch and print.
pub mod Base
pub mod Scanner
pub mod Receipt
pub mod Identity
pub mod Keys
pub mod Client
pub mod Store
pub mod Worker
pub mod Interop
pub mod Secrets
pub mod Operator
pub mod Passkey
pub mod System
pub mod Server
mod Examples
