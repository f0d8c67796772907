-- ===== src/Lib.antt =====
-- predix is the backend of a prediction market. An API process sends commands over Redis streams
-- to a matching engine, which keeps markets, order books, orders and a ledger in memory, answers
-- each command, and emits events; a database worker stores the events and a WebSocket server
-- sends them on. This library models the matching engine of internal/engine, the client of its
-- command streams in pkg/redis, the ownership of partitions, the database worker of
-- internal/dbworker, the WebSocket server of internal/websocket and the HTTP handlers of
-- internal/handler, and states what makes them correct.
--
-- How the modules follow the code:
--
-- - Base, Dict, Sort: shared names, Go's int64 with wrap-around (Base/Int64.antt), Go maps with
--   string keys as association lists, and sort.SliceStable.
-- - Engine.Types: internal/engine/types.go. An order object is an address in a heap, because
--   books and the order map share the objects and matching updates them in place.
-- - Engine.Book: canMatch, findCounterparty, removeInvalidBids, removeInvalidAsks,
--   removeOrderIndex, removeOrderFromSlice and addToBook of internal/engine/engine.go.
--   Book/Priority and Book/Scan are about insertion and the scan.
-- - Engine.Matching: matchAgainstBook, executePair and buildTrade. A child module for each law of
--   the loop; Matching/Contract gathers them for its caller.
-- - Engine.Ledger: internal/engine/ledger.go. Ledger/Totals defines all cash and all shares,
--   Ledger/Freezing and Ledger/Reservation are about reserving and releasing, Ledger/Settlement
--   about trades, Ledger/Overflow about the product that is frozen.
-- - Engine.Core: the state behind the engine's mutex and matchOrder on it. Core/Invariant is the
--   invariant of that state, Core/Gentle the writes it does not mind, Core/Settle that matching
--   keeps it.
-- - Engine.Emit: emitEventP, internal/events/events.go and internal/engine/outbox.go. Emit/Outbox
--   is about what is lost and what is not.
-- - Engine.Depth: aggregateBids and aggregateAsks.
-- - Engine.Commands: handleCreateOrderCore, handleCancelOrderP, handleCreateEvent,
--   handleUserCreated and validateOrder.
-- - Engine.Dispatch: handleGetDepth, handleGetOpenOrders, handleMessage and replayCommandLog of
--   internal/engine/replay.go.
-- - Engine.Interleaving: the critical sections of the handlers as a relation of steps of several
--   workers, each announcing or matching an order between two of its sections.
--   Interleaving/Soundness is about every order of the sections, Interleaving/Drain about
--   finishing a command, Interleaving/Sequential compares a command's sections with its handler.
-- - Engine.Backing: what stands behind the orders, over reserveOrderLocked, settleTradeLocked,
--   releaseOrderLocked and matchOrder for limit orders. Backing/Charging, Backing/Settling and
--   Backing/Settled are about settled trades, Backing/Filling, Backing/Trading and Backing/Loop
--   about the loop of matchAgainstBook, Backing/Release, Backing/Close and Backing/Match about
--   the rest of matchOrder, Backing/Freezing, Backing/Reserving, Backing/Placing and
--   Backing/Orders about a new order, Backing/Cancel about a cancellation.
-- - Engine.Consumer: consumeMessages, processStreamEntry and the switch of handleMessage.
--   Consumer/Entries compares consuming a stream with replaying it, Consumer/Replies follows a
--   request through the engine and back, Consumer/Backlog is about commands that wait while no
--   engine owns the partition; Commands/Known and Dispatch/Runs carry their lemmas.
-- - Rpc: pkg/redis/manager.go. Rpc/Append is about the retried append, Rpc/Requests about a
--   request and its reply, Rpc/Fanout about the command for every partition.
-- - DbWorker: internal/dbworker/worker.go. DbWorker/Database has the tables and the queries of
--   internal/repository that the worker runs; DbWorker/Statements and DbWorker/Settlement are
--   about the sums that a settlement keeps, DbWorker/Redelivery about events that come twice,
--   DbWorker/Fills about order rows and the engine's orders, DbWorker/Fencing about the tokens of
--   engines that have lost their partition. DbWorker/Run is Run and processStreamEntry:
--   Run/Prefix about what a run has done, Run/Poison about an event that no run gets past.
-- - Partition: internal/partition and the ownership loops of internal/engine/worker.go.
--   Partition/Router routes events, Partition/Lease has the lease and the fencing tokens,
--   Partition/Ownership the engines that compete for a partition, as a relation of steps,
--   Partition/Uniqueness that the worker accepts one of them at most.
-- - Websocket: the hub and the clients of internal/websocket. Websocket/Sets has Go's maps with
--   empty values, Websocket/Subscriptions and Websocket/Messages are about who listens to what,
--   Websocket/Delivery about broadcasts. Websocket/Subscriber is internal/websocket/redis.go, and
--   Subscriber/Trades follows a trade to the clients. The goroutine that empties a client's
--   channel is left out, so a channel only fills; a panic is none.
-- - Api: the handlers of internal/handler, the binding tags of internal/dto and
--   internal/middleware/auth.go. Api/Queries has the rows and the queries, Api/Auth sign-up,
--   sign-in and the middleware; Api/Asking is about the part that the handlers share, Api/Orders,
--   Api/Events and Api/Sessions about orders, events and users.
-- - Engine.Examples, DbWorker.Examples, Partition.Examples, Rpc.Examples, Websocket.Examples and
--   Api.Examples: concrete books, ledgers, engines and hubs, and the theorems applied to them.
--
-- A handler takes the engine's state and gives a response and the state after it; each section of
-- code under the mutex is one definition, and in the handlers a command's sections run one after
-- the other, as they do in the one consumer of a partition; Engine.Interleaving lets the sections
-- of the consumers of other partitions come between them. What Redis, the disk, uuid.NewString
-- and the clock do to a command is an argument: a World for a command, a Delivery for each
-- emission, with one Boolean for each step that can fail. The engine is taken with a Redis
-- manager and an outbox; the branches for tests, where one is nil, are left out. JSON payloads
-- are the values that json.Unmarshal gives, or none where it fails. Metrics and logs are left
-- out.
--
-- The loop of matchAgainstBook runs on fuel. Each round removes an order of the side or uses up
-- the incoming order, so two rounds more than the side has orders are enough; that they are is a
-- theorem. Handlers give none only where Go would not return: a loop that does not end, an index
-- out of range, a nil book; that none of these happens from a valid state is a theorem too.
--
-- Cash and shares are sums over the association lists of the ledger. Where a theorem needs that
-- no int64 sum overflows it says so in its hypotheses: a ledger is sound when no holding is
-- negative and all there is fits an int64.
--
-- The two programs share the events: the worker handles the envelopes of Engine.Emit. A
-- settlement is one transaction, whose statements are taken in order; one that fails rolls all of
-- them back. Left out of the tables are time stamps, titles and the average price of a position.
-- uuid.Parse is a parameter, and so is, as a Faults, whether a statement fails for a reason that
-- the tables do not show.
--
-- In Partition a step is one Redis command of one engine with what its loop does on the outcome,
-- a lost reply included; the steps of the engines come in any order, and leases expire at any
-- time. Redis is an interface with the documented effect of its commands on the token counter.
--
-- The command streams join the programs: Rpc appends the entries that Engine.Consumer reads, with
-- payloads given by what each handler of the engine would decode, and the handlers of Api end in
-- a request of Rpc. A loop over reads of Redis runs on a list of what the reads give, so it ends
-- with the list; awaitResponse runs on what its channel hears before the timer fires. An append
-- is stored, or refused, or stored with the reply lost, and the three attempts of appendCommand
-- come from MaxAppendRetries. A float64 price is a record of what the handlers ask of it.
--
-- Not modelled: the goroutines and timers that read commands, events and connections; reads of an
-- order's fields outside the mutex, which Go leaves undefined while another section writes them;
-- the wiring of the processes, configuration, metrics and logging; the queries and handlers that
-- only list a table.
pub mod Base
pub mod Dict
pub mod Sort
pub mod Partition
pub mod Rpc
pub mod Engine
pub mod DbWorker
pub mod Websocket
pub mod Api
