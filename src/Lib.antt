-- ===== src/Lib.antt =====
-- Verification of the Sultan wallet (wallet-extension/src): the TypeScript core that keeps a
-- wallet's secrets, limits guesses, stores the mnemonic and checks second factors, the screens
-- that sign with it, and the client of the DeFi hub (defi-hub/src/api).
--
-- How the parts interact. A browser wallet keeps one encrypted mnemonic in IndexedDB, and the
-- count of failed attempts in localStorage. The user's PIN is checked for its form, tried against
-- the lockout, and opens a session that a timer ends. While a session lasts, the mnemonic and the
-- PIN stay in memory, masked. A second factor may be asked for at login. The wallet derives its
-- accounts from the mnemonic and signs transactions, which the client of the chain's interface
-- posts to a node. The screens that send and stake validate what the user typed, ask for the
-- session's PIN, sign and post.
--
-- Which file models which part:
--   Prelude, Prelude/*      shared notation: lists over the native numbers, texts as UTF-16 code
--                           units, bytes, bit operations, decimal and hexadecimal prints
--   Platform                what the browser provides: TextEncoder and TextDecoder, base64, Web
--                           Crypto; Platform/Samples has toy instances for the examples
--   Security/Wipe           secureWipe and the typed arrays that it works on
--   Security/SecureString   the class SecureString
--   Security/ConstantTime   constantTimeEqual, constantTimeStringEqual
--   Security/Lockout        getLockoutState to clearFailedAttempts; the storage entry is the state,
--                           Lockout/Enforced and Lockout/Rate prove what it guarantees
--   Security/Session        startSession to checkSessionTimeout, over the browser's timers
--                           (Session/Timer); Session/Expiry proves what holds over any events
--   Security/Pin            validatePin; Pin/Accepted says which PINs pass
--   Totp/Base32             base32Encode, base32Decode and their round trip
--                           (Base32/Letters, Base32/RoundTrip)
--   Totp/Code               numberToBytes to verifyTOTP; Code/Digits compares them with RFC 4226,
--                           Code/Windows says which codes pass
--   Totp/Backup             generateBackupCodes, verifyBackupCode
--   Totp/TwoFactor          TwoFactorState to getRemainingBackupCodes; TwoFactor/Once says what a
--                           check consumes
--   Security/SessionPin     hashPinForVerification, verifySessionPin; SessionPin/Checked relates the
--                           answer to the digests
--   Security/Address        detectChainFromAddress to validateAddress; Address/Detected and
--                           Address/Plain prove what the answers guarantee
--   Platform/Floats         JavaScript's numbers where the sources compute with them, a parameter
--   Security/Amount         validateAmount, isHighValueTransaction; Amount/Accepted says what a valid
--                           amount is worth, Amount/Balance and Amount/Commas what commas do
--   Security/Moniker        sanitizeInput, validateMoniker; Moniker/Kept says what is left of a moniker
--   Security/Checksum       generateNonce, createChecksum, verifyChecksum
--   Storage/Vault           core/storage.secure.ts: saveWallet, loadWallet, hasWallet, getMnemonic, over
--                           the record in IndexedDB and the entry of the lockout; Vault/Loading and
--                           Vault/Endings prove what a load gives and leaves
--   Storage/Memory          setSessionMnemonic to clearSessionPin; Memory/Wiped follows the secrets
--                           that are dropped
--   Storage/Deleting        deleteWallet
--   Wallet/Amount           core/wallet.ts: formatSLTN, parseSLTN, truncateAddress; Amount/RoundTrip
--                           says which amounts are read back as printed
--   Wallet/Hex              hexToBytes, which reads back what bytesToHex prints
--   Wallet/Keys             hmacSha512, deriveEd25519Key; Keys/Hmac and Keys/Path compare them with the
--                           definitions of the standards
--   Wallet/Accounts         the class SultanWallet; Accounts/Signing follows a wallet from its mnemonic
--                           to a signature, Accounts/Destroyed what is left after destroy
--   Api/Request             api/sultanAPI.ts: restApi; Request/Retried says when a request is made again
--   Api/Readers             the types of the node's responses
--   Api/Ledger              getBalance, getStakingInfo, broadcastTransaction to claimRewards, and stake,
--                           unstake and claimRewards of sultanAPI; Ledger/Nonces says what they post
--   Api/Governance          mapProposalType to mapVoteOption, getProposals to submitProposal;
--                           Governance/Names has the names on the wire, Governance/Numbers what
--                           parseInt reads of a stake, Governance/Votes follows a
--                           vote to the node and back
--   Hook                    hooks/useWallet.tsx: the hook's state, createWallet, importWallet, unlock,
--                           checkWallet; Hook/Actions has the other actions, Hook/Locked says what a
--                           locked wallet leaves, Hook/Attempts what a wrong PIN costs
--   Screens/Signer          what the screens that sign share: the wallet, the session's PIN and its entry
--   Screens/Guarded         runs of events of which only some reach the network
--   Screens/Send            screens/Send.tsx; Send/Guard says when it uses the network, Send/Posted
--                           follows a confirmed payment to the node
--   Screens/Stake           screens/Stake.tsx: the form; Stake/Actions has what follows the PIN,
--                           Stake/Guard, Stake/Posted and Stake/Listed prove what is done when
--   Screens/Validator       screens/BecomeValidator.tsx: the steps and the form; Validator/Funded has what
--                           follows the PIN, Validator/Blocked says how far the screen comes
--   Screens/Governance      screens/Governance.tsx: the form and its checks; Governance/Actions has what
--                           uses the network, Governance/Deposit and Governance/Votes what is refused
--                           and what is posted
--   Screens/Commas          what the printed balances do to both screens, after the MAX button too
--   Defi                    defi-hub/src/api/defiApi.ts; Defi/Retried says how often a swap is posted
--   Clipboard               core/clipboard.ts; Clipboard/Cleared says when a copied text is gone
--
-- Conventions. The sources of the directories Security, Totp, Storage and Wallet stand in wallet-
-- extension/src/core, as clipboard.ts does; those of Api, Hook and Screens in wallet-
-- extension/src/api, wallet-extension/src/hooks and wallet-extension/src/screens. A handler of a
-- screen runs to its end before the next event, and an action of the hook takes effect where its
-- awaits are over, but for the derivation of an account, which has two parts; the clipboard's
-- functions run from one await to the next. A text is a list of UTF-16 code units and a typed
-- array a list of numbers. A function that changes a module's variables or localStorage takes the
-- state and returns the new one. Each reading of the clock, and each draw of random bytes, is an
-- argument, in the order of the calls. A throw is an `err`, or a `none` where the model needs no
-- message.
--
-- Bounds and fuel. Loops over a text or an array recur on it. The inner loop of base32Encode and
-- the prints of numbers recur on a count that bounds the rounds: the number of bits, and the
-- number that each round divides. The print with commas has that bound too, and the loop of a
-- request recurs on the attempts that are left, three at first. 32-bit shifts keep their wrap-
-- around as a remainder by 2 to the 32.
--
-- Parameters. HMAC-SHA1 and SHA-256 are functions of any result. PBKDF2 and AES-GCM are functions
-- of which a load relies on one law: opening what was sealed under the same key and nonce gives
-- the text back. Base64 and the JSON of the encrypted record are kept by their inverses. Whether
-- IndexedDB can be opened and carries a request out is an argument of each call. The packages of
-- BIP 39, Ed25519, SHA-2, bech32 and stable JSON are fields of one record; signatures are assumed
-- to verify under the public key of the key that made them. The node is a function from what was
-- asked of it before to the outcome of the next request. Where the screens compute with
-- JavaScript's numbers, these are a type with the functions that are called; of it is assumed,
-- where a theorem says so, that parseFloat stops at a comma, that Number of a text with one is
-- NaN, and that NaN is neither above nor below anything.
--
-- Not modelled: what the session's callbacks do to the hook when its timer runs, the markup of the
-- screens, the other screens and components and the pages of the DeFi hub (user interface),
-- cryptographic packages and the Web Crypto API (parameters where a definition calls them), what
-- the DeFi client computes in floating point, the Rust node, the Telegram bot and the bridges
-- (other languages), and built or vendored files. Upper-casing and lower-casing are those of ASCII
-- text.
pub mod Prelude
pub mod Platform
pub mod Security
pub mod Totp
pub mod Storage
pub mod Wallet
pub mod Api
pub mod Hook
pub mod Clipboard
pub mod Screens
pub mod Defi
