-- ===== src/Lib.antt =====
-- hypersdk-go, a Go client of the Hyperliquid exchange: its parts that keep state and decide.
--
-- The program. A client sends signed actions to the exchange and queries to the info and explorer
-- endpoints over HTTP, and subscribes to streams over a websocket. Requests pass the transport's
-- middlewares, among them a retry policy and a weighted rate limiter; signed actions take a nonce
-- from the nonce manager; symbols become asset ids by a resolver; the websocket client admits
-- subscriptions by a reference-counting gate and reconnects by a policy. The parts meet in narrow
-- interfaces, so each is modelled by itself.
--
-- Which file models what.
--   Nonce         nonce/manager.go: MonotonicManager and Next.
--   Transport     transport/: Retry is retry.go (RetryPolicy, Delay, RetryAfterDelay, normalized);
--                 Limiter is the token bucket of weighted_rate_limit.go (Wait, Charge,
--                 refillLocked, delayLocked, remove); Weights is its official weight policy
--                 (RequestWeight, ResponseWeight and their helpers), over Json, the values of
--                 encoding/json; Interval is the limiter of RateLimit in middleware.go (wait,
--                 remove).
--   Websocket     websocket/: Reconnect is reconnect.go (ExponentialReconnectPolicy); Admission is
--                 admission.go (Acquire and the release functions that it returns), and its
--                 Held and Decisions the answer of the gate with no map; Messages is
--                 rate.go (the rolling window of outgoing messages); Posts is post_admission.go;
--                 Wires is wire_identity.go (the canonical form of a subscription, and what matches
--                 it). Registry is the registry of client.go with the part of SubscribeL2Book that
--                 publishes in it (remove, detachSubscriptionIdentity, subscriptionIdentityState).
--                 Manager is manager.go: what a connection keeps of its subscriptions,
--                 acknowledgeSubscription and matchingPendingAcknowledgement, with Errors for
--                 rejectPendingSubscriptions and failExpiredAcknowledgement, Sync for
--                 syncSubscriptions and the check of writeJSON, Rounds for a round of it, and Steps
--                 for the step relation of all of them; Reconnects is the loop of run and
--                 waitReconnect over the policy.
--   Asset         asset/resolver.go: StaticResolver and validateMarketRef, with types/market.go.
--                 Cached is CachedResolver. Loads is the caching of asset/meta_resolver.go
--                 (snapshot, optionalSnapshot), Metadata its fetches (fetchBase, fetchHIP3,
--                 fetchOutcomes), and Lookups Refresh, Resolve, ResolveMarket and ResolveID over
--                 the three namespaces.
--   Exchange      exchange/: Responses is response.go (UnmarshalJSON and its decoders) and the end
--                 of post in submit.go, over Json. Submission is submitL1 and its variants in
--                 submit.go, from the nonce to the post, as runs that record what they ask of the
--                 client's services; UserSigned is submitUserSigned over the actions of
--                 Signing/Users, with ComputeUserActionDigest.
--   Signing       signing/: Encoder is marshalMap and the loops over pairs, as the calls made on
--                 the MessagePack encoder; Orders, Modifies, Accounts, Agents, Advanced and
--                 UserOutcomes are MarshalMsgpack, MarshalJSON and validate of the L1 actions
--                 (l1_action.go, advanced_actions.go, compat_actions.go and the two management
--                 files); Deploy is deploy_actions.go; Actions is the closed set of l1_contract.go,
--                 but for the two validator unions of compat_actions.go, which Validators has.
--                 Preimage is L1ActionComponents and ComputeL1ActionDigest. Users is user_action.go
--                 and its neighbours: the typed data, the wire form and the validation of each
--                 user-signed action. Reader is a MessagePack reader, the description that the
--                 encodings are held against; Agreement, Trading, Validated, Forms and Digests are
--                 proofs about them, and Deploy/Sorted about its tuple lists.
--   Prelude       tests, lists, results, contexts, int64 with its wrap-around, Go maps as
--                 association lists, the functions of strings and strconv that the program calls.
-- The state of a part is a record with the source's fields, less mutexes, channels and clocks; an
-- operation is a function from a state to an answer and a state. A clock reading, a random number,
-- a parsed HTTP date, what the MessagePack writer, Keccak-256, the decimal library, big.Rat,
-- net.ParseIP and go-ethereum's address test answer, whether encoding/json takes a body for a Go
-- type, and an answer of another service are arguments. A context is `none` while it is live and
-- the error of `ctx.Err()` once it is done.
--
-- Concurrency. Code under a mutex is one step. Where a method unlocks between two regions each
-- region is a step of its own: the rounds of the three limiters' waits, the lookup and the
-- assignment of a call of the cached resolver, the rounds of the websocket synchronizer, and the
-- call, the end of the fetch and the wake-up of a shared load. A run is a list of steps, or a chain
-- of a step relation in Websocket, so that a theorem on every run covers every interleaving of the
-- callers. A release function that runs once by sync.Once is a lease with a mark.
--
-- Bounds. Durations of the retry and reconnect policies, unix times of Next, weights and ids are
-- integers with the wrap-around of Go's types where the source can reach it. Counts of references
-- and lengths of lists are natural numbers: they cannot reach 2^63 in memory. The limiter counts
-- tokens exactly, in units of 1/window, where the source rounds a float64; so its theorems are on
-- the exact bucket. After the sleep of delayLocked the float64 can stay just below the weight, and
-- the source then sleeps once more where the exact bucket admits. `strings.ToLower` is on ASCII
-- letters, which the addresses of users are made of. A slice in a payload is an Option of a list,
-- since a nil slice is encoded as nil. Nothing runs on fuel but the printing of a decimal number,
-- whose fuel is above the number, the MessagePack reader, for which the levels of a value are
-- enough, and the descent into multi-signature payloads, which the source stops after eight levels.
--
-- Not modelled: the HTTP and websocket connections, the goroutines of the websocket manager that
-- dial and serve, posts and pings over a connection, the delivery of events, the multi-sig envelope
-- and ConvertToMultiSigUser, the cryptography below a digest, and the wrappers that fill in one
-- request or decode one response each.
pub mod Prelude
pub mod Asset
pub mod Exchange
pub mod Json
pub mod Nonce
pub mod Signing
pub mod Transport
pub mod Websocket
