-- ===== src/Lib.antt =====
-- NetDet: a terminal program that lists the devices that send ARP frames on a network.
--
-- The network thread (src/net/network_thread.c) receives raw frames, brings them to one layout
-- (src/net/frame_parser.c), reads the sender's device out of them, and keeps the devices in a hash map
-- (src/core/hash_map.c). It tells the main thread of new and known devices and of timer ticks over a
-- pipe. The main thread shows the devices in a table, and a popup over it (src/ui/). A signal thread
-- (src/platform/signal_handler.c) waits for SIGINT, SIGWINCH and SIGUSR1, the last of which is how a
-- thread reports an error (src/common/error.c, src/app/lifecycle.c).
--
-- The files:
--   Prelude             lists, 32-bit integers, Boolean tests, and runs of C code that may meet a fault
--   Core/Device         the structs of include/core/device.h and `device_raise_frame_count`
--   Core/DeviceBuffer   src/core/device.c, the growing array of devices
--   Core/HashMap        src/core/hash_map.c, the table with linear probing
--   Core/Registry       `device_registry_upsert` of src/core/hash_map.c
--   Net/FrameParser     src/net/frame_parser.c
--   Net/NetworkThread   the handlers of src/net/network_thread.c; Routine its start, loop and end
--   Net/RawSocket       src/net/raw_socket.c, the socket and the interface that it is bound to
--   Common/Error        src/common/error.c
--   App/Process         the statics of the program; App/Lifecycle src/app/lifecycle.c
--   App/Main            src/app/main.c, app_init.c (Start) and app_clean_up.c, the main thread
--   App/System          the threads together: frames, ticks, signals, keys and messages in any order
--   App/Program         `main` of src/app/main.c: the start, such a sequence, and the end
--   Platform/SignalHandler   src/platform/signal_handler.c; Platform/Epoll epoll_utils.c
--   Ui/ScrollView       src/ui/scroll_view.c
--   Ui/Table            src/ui/tui_app.c, the table of devices
--   Ui/Screen           include/ui/tui.h and popup_templates.h; Ui/Interfaces src/ui/popup_interfaces.c
--   Ui/Popup            src/ui/tui_popup.c
--   Ui/Inspect          src/ui/popup_inspect.c, the fields and the graph of a device
--   Ui/Tui              `input_handler` and `resize_handler` of src/ui/tui.c
--   Ui/Colors           the colour pairs of `ncurses_init` of src/ui/tui.c
--   Ui/Templates        `draw_popup` of src/ui/popup_templates.c and the frame of a window, as values
--   Ui/Drawing          `draw` of src/ui/tui.c and the headings, as values
-- The files under a component hold its proofs, and Tests the concrete runs.
--
-- A function of the source is a function of the same name. A pointer to a device is a number, and the
-- heap is a function from it to the device; a null pointer is `none`. `Run` is a result or a fault:
-- an access out of bounds, a null dereference, a division by zero, or a loop that used up its fuel.
-- `Flow` says whether a function returns or ends its thread by `pthread_exit`. Unsigned integers are
-- natural numbers with `% 2 ^ w` written out, and signed ones are ℤ.
-- What the C library and the kernel answer (malloc, calloc, realloc, recvmsg, localtime_r, sigwait,
-- errno) is an argument of the function that asks.
--
-- Fuel: the loops over a table get one unit for each slot. A valid map has a free slot, which linear
-- probing reaches within that many steps, so that no theorem on a valid map leaves the loop's end open.
--
-- A thread's loop runs over a list of rounds, each with the events that epoll reports and what the other
-- threads have done before it; a list that ends leaves the thread waiting. In App/System one action of one
-- thread is one step, and the two threads share the devices, the statics and the pipe.
--
-- Not modelled: what ncurses and the terminal do with a drawing, the calls of `ncurses_init` that make no
-- colour pair, the start and the join of threads, mutexes, the blocked signals, and steps that are finer than
-- one handler. The arithmetic of `double` in the graph is an argument. The sequences of `App/System` leave out
-- the key that opens a device's popup, which is modelled in `Ui/Tui`.
pub mod Prelude
pub mod Core
pub mod App
pub mod Common
pub mod Platform
pub mod Ui
pub mod Net
pub mod Tests
