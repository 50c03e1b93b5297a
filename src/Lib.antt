-- ===== src/Lib.antt =====
-- A help desk of three Go services behind an API gateway. This library models the gateway
-- (backend/api-gateway), the accounts and sessions (backend/auth-service), the tickets
-- (backend/ticket-service) and the storing and live push of events (backend/notification-service), down to the
-- headers and events that pass between them.
--
-- The parts and the code that they model:
--   Gateway: backend/api-gateway/cmd. Gateway/Middleware has requestIDMiddleware,
--     internalSecretMiddleware, rateLimitMiddleware and authMiddleware; Gateway/Routes the route table of
--     main and the two proxies, of which httputil.ReverseProxy takes off the headers that a Connection header
--     lists; Gateway/Breaker the breakerTransport, newUpstreamBreaker and
--     proxyErrorHandler; Gateway/RateLimiter and Gateway/RedisLimiter the two token buckets. A request
--     passes the global middleware, its route, and for a protected route the token check, and is refused,
--     answered, or forwarded with a path and headers.
--   Auth: backend/auth-service. Auth/Domain and Auth/Store have the data and the interface of the database
--     and of bcrypt; Auth/Sessions refresh_token_repository.go; Auth/Accounts auth_usecase.go,
--     user_repository.go and bootstrap.go; Auth/Tokens signTokens and the request shapes; Auth/Handler the
--     endpoints; Auth/Routes RegisterRoutes with InternalOnlyMiddleware and RequireRole.
--   Tickets: backend/ticket-service/internal. Tickets/Domain has the data, Tickets/Store the repositories,
--     Tickets/Usecase and Tickets/Discussion the use cases, Tickets/Handler the endpoints and what they
--     publish to the notification service; Tickets/Reports the reports; Tickets/Concurrent the use cases of
--     requests that overlap; Tickets/Routes the routes of cmd/main.go.
--   Publisher: delivery/messaging of the ticket service. Publisher/Dial has dialAMQP and the session,
--     Publisher/State the Publisher and what is done under its lock, Publisher/Steps how the goroutines in
--     Publish and reconnect interleave.
--   Notify: backend/notification-service/internal. Notify/Consumer has the two consumers of
--     consumer/consumer.go, Notify/Inbox the stored notifications, Notify/Endpoints their REST side,
--     Notify/Hub the clients, the queue and the delivery of delivery/ws/ws.go as steps that interleave in any
--     order, and Notify/ClientIp the address of a client behind proxies, of delivery/ws/clientip.go.
--   Notices: an event from a request to the ticket service to a user's inbox, across the two services.
--   Migrations: internal/migrations/migrate.go, the same file in three services.
--   Config: pkg/config of the four services.
--   Numeral has the number formats that the services exchange in headers: `%v` of a JSON number on the
--     gateway's side, `Sscanf`, `ParseUint` and `Atoi` on the services'. Text has splitting and trimming.
--     Jwt, Db and Amqp are the interfaces of golang-jwt, of a table reached through GORM, and of
--     amqp091-go; Http has headers, replies and the binding of bodies.
--
-- An event that a ticket endpoint publishes goes through the Publisher to an exchange; every replica of the
-- notification service pushes it to its own WebSocket clients, and one of them stores it for the user whom it
-- names, who reads it over REST.
--
-- State is passed explicitly: a use case takes the database and returns a value and the database after it,
-- or an error; a handler answers with a refusal, and then the database is as before, or with a payload, the
-- database and the published events. Functions have the names of the code's, in lower case.
--
-- Outside the model, as arguments with named laws: PostgreSQL and GORM (Table, TicketStore, AuthStore: each
-- call may fail, and its laws say what a successful one does), golang-jwt (Jwt), golang-migrate (Migrator),
-- bcrypt (Bcrypt), gobreaker
-- (Breaker), gin-contrib/cors, the validator's e-mail test, RabbitMQ and amqp091-go (a broker answers each call
-- as a function of the calls so far), package net (NetPackage), floating-point numbers and durations as texts
-- (Formats), encoding/json on an event (EventJson). Db/Memory, Tickets/Store/Memory, Auth/Memory,
-- Notify/Inbox/Memory and Jwt/Sample are instances, on
-- which the Examples modules run the theorems.
--
-- Bounds and fuel: the printing of decimal digits runs on fuel 20, which is enough below 10 ^ 20 and so for
-- every 64-bit number; `%v` of a number is modelled for whole numbers below 2 ^ 53. Instants are natural
-- numbers: seconds in the services, nanoseconds and milliseconds in the limiters, whose clocks do not run
-- backwards. The limiters count tokens in billionths, with a whole rate and burst of at least 1; float64
-- rounding is outside.
--
-- The reports count nanoseconds in 64 bits where the code does. A goroutine in Publish takes at most
-- thirteen steps, which its rank in Publisher/Progress counts.
--
-- Not modelled: the restart loops of the consumers, readiness checks, start and shutdown, what /metrics and the
-- API docs answer,
-- logs, API docs and the Flutter client. A database transaction is one step; two requests do
-- overlap between reading a ticket and the transaction that writes it, in Tickets/Concurrent, while in the other
-- modules each use case runs as one step. The hub of the notification service and the publisher interleave too.
pub mod Base
pub mod Db
pub mod Numeral
pub mod Text
pub mod Config
pub mod Amqp
pub mod Http
pub mod Jwt
pub mod Gateway
pub mod Auth
pub mod Tickets
pub mod Publisher
pub mod Notify
pub mod Notices
pub mod Migrations
