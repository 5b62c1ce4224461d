-- ===== src/Lib.antt =====
-- The backend of KONUMLU, a marketplace: users publish needs, businesses answer with offers, and an
-- accepted offer becomes a transaction. Most changes of state send an event through the outbox.
--
-- Parts, and the code that they model (paths under backend/internal/):
--   Base: the results, Boolean tests and tables that the parts share; Text: strings.TrimSpace and the
--   comparison of strings, on lists of character codes.
--   Ids: NewID, ParseID and ID.String of transactions/domain.go, which every package repeats. An
--     identifier is a number below 2 ^ 128 and zero is ID{}.
--   Money: Price.normalized of offers/domain.go and Money.normalized of payments/domain.go;
--   Money/Decimal proves what the amount pattern accepts.
--   Contracts: the references in offers/contracts/lookup.go, needs/contracts/lookup.go and
--   transactions/contracts/lookup.go.
--   Outbox: platform/outbox. Event is event.go, Policy is policy.go, Store is postgres.go, Writer is
--   outbox.go, Relay is relay.go, registry.go and handler.go. Store/Steps is the store interface of
--   store.go, as the statements that workers run in any order.
--   Transactions: transactions. Domain is domain.go, Memory is memory.go, Events is events.go,
--   Contracts and Lookup are lookup.go, Setup and Service are service.go.
--   Offers: offers. Message and Domain are domain.go, Memory is memory.go, Events is events.go and
--     contracts/events.go, Setup, Work and Service are service.go, Lookup is lookup.go.
--   Payments: payments. Domain is domain.go and gateway.go, Memory is memory.go, Service is service.go.
--   Reviews: reviews. Domain is domain.go, Cursor is cursor.go, Memory is memory.go, Events is events.go,
--   Service is service.go. Service/Paging follows the cursors of the public reviews.
--   ReviewAggregates: reviewaggregates. Domain is domain.go, Memory is memory.go, Projector and Handler are
--   projector.go and handler.go.
--   Needs: needs. Content and Domain are domain.go, Memory is memory.go, Service is service.go, Fulfillment is
--   fulfillment.go and lookup.go. Completed joins it to Transactions/Completion, which is
--   transactions/handler.go.
--   Deliveries: deliveries. Domain is domain.go, Memory is memory.go, Setup and Service
--   are service.go, Events is events.go and Lookup is lookup.go.
--   Disputes: disputes. Domain and Evidence are domain.go, Memory is memory.go, Setup,
--   Service and Filing are service.go, Events is events.go and Lookup is lookup.go.
-- Each Tests module holds tests at concrete inputs and the examples of the theorems.
--
-- How they interact: the transaction service reads offers and needs through lookups, which are fields
-- of Transactions.Setup.Setup; Transactions/Service/Offered fills that of offers with GetOffer of the
-- offer service, and Payments/Service/Payable that of transactions with GetTransaction. The completion
-- handler of Transactions takes a fulfilment, and Needs/Completed fills it with that of the need
-- service. The review events of Reviews/Events are what ReviewAggregates/Handler decodes. The other
-- lookups, such as those of businesses, listings and categories, are functions. A service sends its
-- events through an enqueue function on a queue of any type, as Outbox.Writer.enqueue is; the relay
-- claims events and gives them to handlers.
--
-- Conventions: a method that changes a store returns the result and the store that it leaves. A time
-- is the number of nanoseconds since Go's zero time, so time.Time{} is 0. A context is the error that
-- ctx.Err() answers. A database transaction that is rolled back leaves the world that it began
-- with. What other requests do between the steps of a request is a function on the world.
--
-- Loops: all recursion is structural. The delay loop of Policy.NextAvailableAt runs on the exponent
-- that bounds it in the source. Reviews.Service.Paging.follow, the walk of a client through the pages of
-- a list, runs on a number of pages; one more than the reviews of the listing is enough.
--
-- Integers: the retry delay of Outbox.Policy is an int64 that wraps, and the jitter overflows as in the
-- source. The conversion of a float outside the range of int64 is left to the platform, as Go leaves it.
-- A run-time panic is the error `panicked`; a batch of the relay ends with it.
--
-- Not modelled: the float operations of the policy (a record of operations with the facts that the
-- code relies on), the JSON parser (payloads are JSON trees), the random source (its bytes are an
-- argument), the texts of times and decimals where a part only passes them on (functions), the floats
-- of coordinates (a type with the comparisons that the code makes), SQL drivers and the HTTP layers,
-- which are third-party code or glue, and the packages that no part above names: none of the parts
-- calls them, except through a lookup that is a function.
pub mod Base
pub mod Ids
pub mod Text
pub mod Money
pub mod Offers
pub mod Payments
pub mod Outbox
pub mod Contracts
pub mod Transactions
pub mod Reviews
pub mod ReviewAggregates
pub mod Needs
pub mod Deliveries
pub mod Disputes
