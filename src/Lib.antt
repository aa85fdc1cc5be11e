-- ===== src/Lib.antt =====
-- The verification library of zerogame, the server of a multiplayer card game.
--
-- The WebSocket gateway is server/gateway_ws, with the messages of pb/websocket.pb.go. A client's
-- frame runs through all of it: `handleConnection` of server.go reads it, a parser decodes it, the
-- router finds its handler, the handler calls the connection manager and the broadcaster, and a
-- worker of the broadcaster writes to the sockets.
--
-- Shared: Go's maps as association lists (GoMap), int32 and int64 as integers with the wrap-around
-- of int32 written out (Int), decimal texts (Decimal), and code that may panic (Effect). A panic
-- leaves the changes made before it.
-- Message: the structs of pb/websocket.pb.go, the dynamic types that an `interface{}` of the
-- gateway takes (Body), and the errors with their texts (Failure, ErrorText).
-- Connection: connection.go, method by method. Rooms, Invariant and Moves carry the invariant
-- through each method, Reach through every sequence of calls; Presence is what the manager promises
-- without its maps, and Presence/Refinement relates the two; Lookups and Cleanup say what a caller
-- sees after a call, and Defects where the code misses its purpose. The loop of the heartbeat
-- checker takes, for each tick, what the other goroutines made of the manager before it.
-- Parser: json_parser.go (Json) and proto_parser.go (Proto), and what both share. Headers, Bodies,
-- RoundTrip and Responses are about what goes in and out; where a theorem is about both parsers, it
-- takes an `AnyParser` or a `Format`.
-- Gateway: the state that the broadcaster, the handlers and the server share through pointers, and
-- Gateway/Steps the frame conditions of steps over it.
-- Broadcaster: broadcaster.go: the choice of the targets (Targets), also while other goroutines call
-- the manager between its lookups (Interleaved), the sending (Sending), the worker pool as a step
-- relation over every schedule of its goroutines (Pool), and the loop between the queue and the pool
-- (Loop).
-- Router and Handler: router.go: the router over any type of handlers, the nine handlers of
-- `DefaultMessageHandler`, and their switch (Handler/Dispatch).
-- Server: server.go: the loop of a connection, its error report, `Stop`, and the two broadcasts,
-- which Server/Pushes follows to the sockets; Errors and ProtoFrames are about the frames that end the
-- program. `Stop` waits for the workers of the pool, and what the other goroutines do meanwhile is an
-- argument of it; that the wait returns is a matter of Broadcaster/Pool. Server/Setup is the
-- configuration, what `NewServiceContext` builds from it, and the settings of a new socket, and
-- Server/Lifecycle the goroutines of its `Start` beside its `Stop`, as a step relation.
-- System: the gateway as a whole, as a list of events that any of its goroutines may play, in any
-- order: a frame that is read, a close frame, the end of a connection, a tick of the heartbeat
-- checker, a push, a broadcast that a worker takes or that finds the pool closed, and `Stop`, in two
-- halves with any events between them. Effects and Quiet say what an event does to the shared state,
-- Sound and Reachable carry an invariant through all of them, Shipped is
-- about the gateway with the loggers that its constructors set, FirstUser about the user that every
-- login is given, RoomBroadcasts about whom a broadcast to rooms reaches, Chats follows a chat from its
-- handler to the sockets, KeepAlive a client from heartbeat to heartbeat, and Silence one that sends
-- none.
--
-- The HTTP gateway is server/gateway_http. HttpGateway: genericlogic.go, which turns a request by
-- name into a call of an RPC service: Reachable is about what it refuses, Calls about the two calls
-- that it makes, and Total says that it always returns. Path and Handlers are gatewayhttphandler.go,
-- the reading of the path and of the data before that logic, Routes is the table of routes.go, and
-- Scaffold the handlers of both gateways that goctl made and that are still empty.
-- `reflect`'s lookup is the list of the clients' methods; the services, the decoding and
-- `strings.Title` are the parameter `Remote`, and net/http with httpx is the parameter `HttpLib`.
--
-- Services: server/login and server/user with their clients, and the HTTP gateway's own login
-- (loginlogic.go, loginhandler.go). Services/Credentials runs a login through both routes of that
-- gateway, the login service and the user service.
--
-- Store: pkg/db. Cache is freecache.go, with freecache, jsoniter and singleflight as parameters,
-- Redis is redis.go, with go-redis and redislock as parameters, and Mysql is mysql.go, with gorm and
-- database/sql as parameters; none is used by the servers yet.
--
-- A `*websocket.Conn` is a number. Time is an argument, in nanoseconds. The mutex of the connection
-- manager makes each of its methods one step. encoding/json and google.golang.org/protobuf are the
-- parameter `Codec`, and github.com/gorilla/websocket is the parameter `Net`, which says whether a
-- write succeeds. That a codec decodes what it encodes is a named hypothesis where it is used: it
-- holds of both libraries for texts in valid UTF-8. The order of a `range` over a map is the order
-- of the association list, and no theorem depends on it.
--
-- A Go channel is a list with a flag for closed. `processMessages` runs for as many turns as cases
-- of its `select` are given, and Broadcaster/Loop says how many are enough. The only fuel is that of
-- `decimal` in Shared/Decimal: a number has no more digits than its value plus one, and
-- `decimal_step` there shows that more fuel changes nothing.
--
-- Not modelled: the interleaving of the handlers with one another within one frame, which System
-- plays as one step; the upgrade, the listeners and the start-up code, which reads the configuration
-- files and connects to the services; what is printed, the write deadlines; and
-- generated code other than the message structs.
pub mod Shared
pub mod Connection
pub mod Message
pub mod Parser
pub mod Gateway
pub mod Broadcaster
pub mod Router
pub mod Handler
pub mod Server
pub mod System
pub mod HttpGateway
pub mod Services
pub mod Store
