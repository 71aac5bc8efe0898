-- ===== src/Lib.antt =====
-- remy is a file manager for remote machines: a server to which clients connect, and a text user
-- interface in each client that browses, copies, deletes and makes files of other clients. Each client
-- keeps a control connection to the server. To browse, a client asks for another one by its id; the
-- server asks both to open a Browser connection and then passes bytes on between the two. To copy, the
-- server asks the source and the destination for a Copy connection, passes the files on, counts
-- them, and reports to the client that asked.
--
-- Base holds what the others share. Wire has the records of include/remy/common.hpp. Serde models
-- include/remy/serde.hpp: a `recv` takes bytes off the front of what the peer has sent, and gives none
-- if the connection closes first. Protocol models the four kinds of messages (the enumerations of
-- common.hpp): senders and readers stand in src/server.cpp and src/client.cpp, on opposite sides, and the
-- reading loop that they share is written once, over an interface that the four fill.
--
-- Server models src/server.cpp. Server.Exec is the monad of its coroutines: a part of a coroutine, from one
-- suspension to the next, ends with a value, with an exception, in a wait, or in a crash. Clients are
-- objects in a heap; the map of clients and the coroutines hold addresses (Server.State).
-- Server.Control has the registration and the two loops of a client, Server.Channels the new
-- connections, Server.Browser `process_browser_conn`, Server.Copying `copy_handshake`. A function
-- such as `connect` or `clients_list_notify_all` is modelled as it runs when no other coroutine comes
-- in between; the source suspends it for each client. Server.Control.Run has the steps from one
-- suspension to the next, in any order: what the source does under its mutex is within one step, and
-- a loop over the clients that goes on from an erased one is undefined. That an insertion can
-- invalidate this loop as well is not modelled, nor are data races within a step. The values of
-- `rand()` are parameters. Server.Control.Roster is what the Control connections promise without
-- addresses and channels, a roster of endpoints and names by id, and Server.Browser.Tunnel is
-- `simple_proxy`: a step relation, in which the two pumps, the two peers and their failures
-- interleave freely.
--
-- Copy models a Copy operation: Copy.Sender and Copy.Receiver `CopySender::process` and
-- `CopyReceiver::process` of src/client.cpp, Copy.Proxy `process_copy` of src/server.cpp,
-- Copy.Attributes `statx_to_metainfo` and `apply_attrs`, over calls of the system that are
-- parameters. What is read from a source's files is data of the model, and the receiver gives the
-- list of the operations that it asks of its file system. The clock, the sizes of the proxy's reads
-- and the life of the watcher are an environment. The loops over a content have fuel: the announced
-- size, which is enough since each turn moves a byte (`send_content_lem`; `forward_copy_lem` for the
-- proxy). In the model of the proxy the watcher's channel has room and the destination takes every
-- write.
-- Copy.Delivery puts the three together. The search for a free id has fuel for one more than the
-- clients, which is enough by `allocate_id_total`; the reading loop has it for each byte
-- (`read_loop_ends`).
--
-- Copy.Collect models `CopySender::collect_metadata`, and Client the handlers of `BrowserHost`, of
-- src/client.cpp, both over a file system that is a parameter. Client.Host has its two coroutines
-- and the peer as a step relation. Client.Net is `ClientNet` of include/remy/client.hpp and
-- src/client.cpp: the maps of Browser connections, the channels, and the events that it posts to the
-- user interface. Client.Net.Locked adds the lock that the two threads share, with every attempt of
-- `send_request` as a step; Client.Net.Later has the steps between two attempts.
--
-- View models the state and the handlers of src/view-client.cpp: View.Panels the panels, View.Modals the
-- Copy, Delete and Mkdir dialogs, View.Main the main container and the other dialogs, View.Texts the texts
-- that are shown, View.Dents the order of a listing, View.Events all events. View.Events.Modal says which
-- events reach a handler, since a window that is shown gets every key; what is posted runs always.
-- Logger models the observers, the guards and the levels of include/remy/logger.hpp, Utils the helpers of
-- include/remy/utils.hpp, Programs src/main-server.cpp and src/main-client.cpp.
--
-- Not modelled: the layout and the rendering, which the FTXUI library does; sockets and the io_context;
-- the host name, which is a call of the system; how the options library reads a command line; the
-- algorithm of `std::sort`, in whose place stands an insertion sort, with the one result that is in
-- order where no name stands twice (`sorted_once`).
pub mod Base
pub mod Wire
pub mod Serde
pub mod Protocol
pub mod Utils
pub mod Server
pub mod Copy
pub mod Client
pub mod View
pub mod Logger
pub mod Programs
pub mod Tests
