-- ===== src/Lib.antt =====
-- A model of tanzlaurel: flourish, a blog server whose entries are edited together, and withered, a
-- game server. Paths below start at the root of the repository.
--
-- flourish/server. A client's operation on the text of an entry comes in over a web socket. The sync
-- service stores it as an event, numbered within its entry, and acknowledges it; the projector turns
-- it into an operation of the entry's replicated array, writes the resulting text to the entry, and
-- what it did not refuse is broadcast to the subscribers. A client that was away asks for the events
-- after the last number that it knows.
--   Flourish.Crdt      domain/crdt/crdt.go. Types has the types and the clock, Rga the operations
--                      (applyInsert is `apply_insert`, skipSubtree `skip_subtree`, and so on),
--                      Snapshot the payloads, Export and ImportRGA. Forest is the specification:
--                      trees of characters, siblings in the order of nodeIDPriority; Refinement,
--                      Deletion and Apply connect the operations to it, Restoring the snapshots.
--                      Reach has the changes of an array as steps, Accounts and History what an
--                      array holds of the operations that it was given, Priority, Ordered and Unique
--                      why that determines it; Convergence and Delivery are about the operations
--                      given in any order.
--   Flourish.Store     the types of domain/, adapter/memory (Events and Entries), and the events of
--                      adapter/jsonfile (Files), where a directory is a list of files with lines.
--   Flourish.Sync      application/sync_service.go, over any event store.
--   Flourish.Projector application/entry_projector.go, over any entry store.
--   Flourish.Tickets   auth/ticket.go.
--   Flourish.Socket    handler/ws.go and ws_protocol.go, over any event store and entry store: what
--                      is written to the connections is a list of messages with their receivers.
--   Flourish.Uuid      what the code relies on of github.com/google/uuid.
--
-- withered/server. A session endpoint reads messages from a web socket and publishes them to the
-- topic of a room; the room hands them to the application, whose tick gives what is broadcast.
--   Withered.Protocol  domain/protocol/varint.go and protocol.go (Varint, Messages), and
--                      application/protocol/protocol.go (Payload).
--   Withered.Sessions  domain/session.go, session_endpoint.go, room.go, session_registry.go
--                      and simple_pubsub.go.
--   Withered.Game      application/world.go, buffer.go, map.go, withered_application.go and codec.go;
--                      Floats and Systems are phase.go, bullet.go and field.go over any arithmetic of
--                      float32, Scheduler is schedular.go, Ticks the tick of the application.
--
-- Base has what the parts share: tests and lists over native numbers, and the results of Go code.
-- The modules called Examples, Replicas, Services, Connections, Reopening, Rounds and Broadcasts run the
-- definitions on small inputs.
--
-- How Go is read. Structs are records, and a method that changes its receiver returns the new one. A
-- map is a function or a list of its keys; a loop over a map runs in the order of that list. An
-- integer of w bits is a number with its wrap-around written out; a uint64 clock that a message sets
-- is the number that the message has. A string is the list of its runes or bytes, a UUID the number
-- of its bytes, a float32 its bit pattern. Random values and times are arguments. A run-time panic
-- is the outcome `panic`. Locks are left out: each operation that holds one is a single step.
--
-- Fuel. The loops of crdt.go and the recursion of isDescendantOf take as fuel the number of nodes
-- plus one, flushPending the number of buffered operations plus one; out of fuel is the outcome
-- `stuck`. On a well-formed array neither outcome occurs, as stated for Apply below. The loop of
-- topologicalSort takes the number of systems, which is enough as stated below.
--
-- Not modelled: HTTP handlers, routing, tokens, logging and tracing (glue around other packages), the
-- files of entries and of snapshots and the loops over channels (I/O), generated mocks, and the
-- clients in other languages.
pub mod Base
pub mod Flourish
pub mod Withered
