-- ===== src/Lib.antt =====
-- FileMarket front end: a verification library.
--
-- FileMarket sells encrypted files as tokens. The creator encrypts a file with a key that is derived
-- from a seed; at each sale the buyer publishes an RSA key, the owner encrypts the file's password
-- with it, and the buyer decrypts. The stores of the front end follow a sale by the actions of the
-- page, the messages of the backend and the answers to its requests. This library models the
-- logic of that front end and of its crypto package, and the contracts of the tokens and of the
-- exchange that the front end stands on; paths are from the root of the repository.
--
-- Base: shared names, tests on numbers and texts, lists, dictionaries (a JavaScript object or
--   record as an association list), and `Result` for promises and calls that may throw.
--
-- Crypto (packages/crypto/src): Bytes is lib/utils.ts with hexadecimal numbers and buffers, Config
--   is lib/config.ts, Hkdf is lib/hkdf-sha512.ts, Derivation is lib/eft-derivation.ts with
--   lib/rsa.ts and the worker, Aes is lib/aes.ts, Rsa is lib/rsa.ts. The platform's
--   crypto.subtle and node-forge are the records of Platform, with the laws relied on.
--
-- Processing (packages/frontend/src/app/processing): HiddenFile has the classes HiddenFileOwner and
--   HiddenFileBuyer, with the answers of chain and backend as a record; Storage has
--   LocalStorageProvider and SecureStorage; Seed has SeedProvider, on such a storage; Factories
--   has the jobs of SeedProviderFactory and the registers of HiddenFileProcessorFactory.
--
-- Stores (packages/frontend/src/app/stores): Request is utils/store/IStoreRequester.ts, on which all
--   stores are built: a store is a `Requester` and its content, a promise settles by an event.
--   ErrorText is utils/error/stringifyError.ts. Transfer is TransferStore.ts with BlockStore.ts, its
--   handlers in Transfer/Handlers as `on_event` over the events of the contract, and
--   Transfer/Permissions is utils/transfer/status.ts; Transfer/Activation is its requests with the
--   hook useActivateDeactivateStore.ts, and TransferList is TransferListStore.ts. Dialog is
--   DialogStore.ts, Socket is SocketStore.ts with what a message does to the stores of a page, Lists
--   is the data of the lists that grow by pages, with PageStore.ts, and Lists/Backend the pages that
--   indexer/internal/repository/tokens.go gives of the tokens of a collection, Chains is MultiChainStore.ts,
--   CurrentBlockChainStore.ts and ChainStore.ts, and Auth is AuthStore.ts with utils/jwt and
--   utils/auth. Opened is OrderStore.ts, TokenStore.ts, CollectionStore.ts, WhiteListStore.ts and
--   ProfileStore.ts: the record Opens has the operations that these stores share, IsOpens says that
--   they are made of requests, Opened/Order, Token, Collection, WhiteList and Profile fill both, and
--   Opened/Network is one of them with its page and the backend, as a step relation.
--
-- Contracts (sol-contracts/contracts): Collection is the transfers of FilemarketCollectionV2.sol, one
--   function per call in Collection/Sale and Collection/Ending, all of them in Collection/Calls;
--   Collection/Moves is the state machine of one transfer, as a step relation.
--   Exchange is the orders of FilemarketExchangeV2.sol, with the money that comes and goes. Mirror
--   compares the transfer of the store, in status, key and password, with that of the contract; its
--   sender and receiver are not compared. Collection/Burn is burn, and Collection/Unpaid lists of
--   calls and burns.
--
-- Deal (packages/frontend/src/app/components/NFT/NFTDeal): which actions the page of a token offers,
--   by the permissions of Stores/Transfer, and what each button does to the store after its call of
--   a contract, between the steps of wrapButtonActionsFunction.ts. Receiver is useIsBuyer.ts after an
--   order is fulfilled.
--
-- Hooks (packages/frontend/src/app/hooks): useIntervalAsync.ts, whose timers and promises on the way
--   are part of the state, and useStatusState.ts.
--
-- Contracts/Market: the exchange and a collection that call each other (placeOrder, fulfillOrder and
--   cancelOrder with the draft, its completion and its cancellation; transferFinished,
--   transferCancelled and transferFraudDetected as callbacks). Paid is safeTransferCurrency: a
--   transaction reverts if a payment does not go through; elsewhere payments are a list. Linked, Deals, Calls and Runs
--   keep orders and transfers together, Sale, Fees, Steps, SaleAt and Sold follow one sale, Anyone a
--   cancellation, Burned and Lost a burned token, and Funds the money.
--
-- Contracts/Interaction: the calls of the exchange that the pages make, from useCallContract.ts of
--   packages/frontend/src/app/hooks, usePlaceOrder.ts and useFulfillOrder.ts of
--   processing/nft-interaction there, and the checks of processing/utils/assert.ts; Sale runs them on
--   Contracts/Exchange.
--
-- Tests: each theorem with hypotheses at a concrete input, on toy platforms that satisfy the laws.
--
-- How the state corresponds: fields keep their names in snake case; a missing value is `none`, an
-- object's identity is a number, a method is a function from the state to the state, with its
-- result beside it; effects on other parts (callbacks, timers, web sockets) are logs. Code between two
-- awaits is one step, so that interleavings are sequences of steps; a listener or a promise that fires
-- is an event, and the invariants hold along all sequences of events. A call of a contract is a
-- `Result` of the new state and the events, an error where it reverts; a mapping is a function.
--
-- Loops are structural recursions. The digits of a number are written with the number's successor as
-- fuel, more than it has digits; HKDF's blocks are counted by the loop's own bound; `close_loop` and
-- `visit_loop` run for the number of entries there are at their start, as the loops of the
-- source do. Nothing else needs fuel.
--
-- Parameters, since they are not code of the repository: crypto.subtle and node-forge, JSON, the
-- browser's storage, the password encryption of @metamask/browser-passworder, wagmi and viem,
-- web sockets, `BigInt` of a text, and the order of the texts of ids in the database; for the
-- contracts, the ERC721 ledger of OpenZeppelin, the currencies, the callback receivers, which do not
-- call back into the collection, the fraud decider, and the recovery of a signature.
--
-- Not modelled: the other components, pages and hooks of React, which show the stores; the listener of
-- the events of a contract, an interface that nothing in the repository calls; the reload of the
-- stores after a change of the chain; the generated client of the backend; minting and the settings of the collection, the batches, the
-- settings and the withdrawals of the exchange, the other contracts and the scripts; the services in
-- Go and Rust; and, of the modelled stores, the cards that their views are made of.
pub mod Base
pub mod Contracts
pub mod Crypto
pub mod Deal
pub mod Hooks
pub mod Processing
pub mod Stores
pub mod Tests
