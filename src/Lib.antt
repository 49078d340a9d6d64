-- ===== src/Lib.antt =====
-- Split-flap display web backend: the Go program under backend-go/.
--
-- Clients publish messages over HTTP. The scheduler keeps them in the store, shows one after another on
-- the display (it publishes the text over MQTT and dwells for the message's duration), and tells its
-- subscribers, each of which has a bounded queue of server-sent events, what is on display, what waits
-- and what was published.
--
--   Prelude      shared notation, lists, texts, integers, maps, and the stable sort
--   Strings      what the program uses of Go's strings, strconv and unicode packages
--   Events       the events that queues carry: Event of backend-go/internal/queue/queue.go
--   Queue        backend-go/internal/queue/queue.go: New, Push, Pop, Drain, Len. Laws: the contents as
--                the newest elements. Delivery: schedules of producers and the consumer
--   Models       backend-go/internal/models/message.go: Message, ParsePriority, ParseAlign,
--                MarkDisplayed, MarkCompleted, NewMessage, ToDTO, NewHistoryEntry
--   Store        backend-go/internal/store/store.go: Add, Get, ListAll, ListActive, CountActive,
--                EvictCompleted, MarkCompleted, Update, over a heap of messages. Order: the orders in
--                which Go may visit the map
--   Scheduler    backend-go/internal/scheduler/scheduler.go: the state, snapshots, notify,
--                SelectNextMessage. Requests: AddMessage, RemoveMessage, SubscribeQueue,
--                UnsubscribeQueue. Ticks: schedulerTick, handleIdle and the loop of Start.
--                Rendering: publishPayload and padToWidth. Stock: what every message is like.
--                Lifecycle: Start and Stop
--   Subscribers  the loops that push an event to a set of queues, which scheduler.go and client.go share
--   Mqtt         backend-go/internal/mqttclient/client.go: the callbacks, handleMessage, Publish and the
--                subscriptions. Races: a subscription beside a message. Lifecycle: Start and Stop
--   Api          backend-go/internal/api/server.go: handlePublish, handleDeleteMessage, handleCurrent,
--                handleSchedulerStatus. Views: handleConfig, handleDisplayState, requestLogger.
--                Stream: handleSSE, its relays, writer and fallback as steps. Stream/Frames: the bytes
--                that the writer writes, and the browser's EventSource as a parameter.
--                Stream/Registry: registerSSE, unregisterSSE and Shutdown
--   Config       backend-go/internal/config/config.go: defaults, loadFile, applyKey, applyEnv, Load
--   Server       backend-go/cmd/server/main.go: findConfigPath, findStaticDir, and main from the start of
--                the parts to their shutdown
--   Tests        sample data, and the theorems at concrete inputs
--
-- How the code is read. Pointers to messages are addresses in a heap, so that the store and the
-- message on display share their objects as the code does; pointers to queues are addresses too.
-- The methods that take a lock are functions, one step each. A tick waits at the publish and in its
-- dwell, backoff or idle wait, and the handlers run there: `Env` lists their calls, the outcome of
-- the publish and whether the context is cancelled, and the theorems that quantify over `Env` cover
-- every such order of whole calls. Steps finer than a call are modelled where a statement is about
-- them: the two halves of SubscribeQueue, the check and the acceptance of AddMessage, the steps of
-- the MQTT client's handleMessage and of its subscriptions, the insertion and the signal of Push, the
-- goroutines of an event stream, and Start and Stop. The bound on the active messages supposes that
-- calls of AddMessage do not overlap.
--
-- Go visits a map in no specified order, and in another at every visit. The store's map is a list of
-- entries, whose order stands for that of a visit. It is arbitrary at the start, and may change wherever
-- calls of handlers may come in; the visits of one call see one order. A statement that depends on the
-- order says so.
--
-- Numbers. Counts and times are natural numbers; the durations, targets and widths that come from
-- outside are integers, negative ones included. Go's int has 64 bits; no display count comes near
-- its limit in the life of a process. Texts are lists of runes, which is the unit in which the code
-- measures them.
--
-- Parameters. Time zones (how a time is printed), identifiers (uuid.NewString), the clock and the
-- broker's answers are arguments, and so are Fiber's reading of a request, the lines of the configuration
-- file, the environment and the file system. The browser's EventSource is a record with the laws of the
-- HTML standard that the server relies on. Paho calls handleMessage for one message
-- after another, which is its default. No loop of the program runs on fuel: the loop of Start runs
-- over the list of its ticks' environments, and a theorem gives the number of ticks after which no
-- message is active.
--
-- Not modelled. json.Marshal (an event carries the value it marshals), logging, routing in package
-- api, the printing of the configuration, and the browser page.
pub mod Prelude
pub mod Strings
pub mod Events
pub mod Queue
pub mod Models
pub mod Store
pub mod Subscribers
pub mod Scheduler
pub mod Mqtt
pub mod Config
pub mod Api
pub mod Server
pub mod Tests
