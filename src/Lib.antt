-- ===== src/Lib.antt =====
-- fxIP, an IRC client for Casio graphing calculators over a serial line, as a library of definitions
-- and theorems.
--
-- The program is a chain of parts. An interrupt handler and the program share two byte rings
-- (src/ringbuffer.h, src/scif.c); over them the SLIP device frames packets (src/slipdev.c); the uIP
-- stack takes a packet from `uip_buf`, or a tick of the timer, and leaves its answer there
-- (src/uip/uip.c); src/network.c joins these at each poll. The application, called by the stack, is
-- the IRC client (src/uip/irc.c), two protothreads over protosockets. It parses the lines of the
-- server and writes what they say to the object log, from which the pages of the user interface
-- (src/ui.c) draw; a line that is typed is submitted to the client. src/hayes.c
-- is the dialogue with a modem, whose calls stand in a comment of src/main.c.
--
--   Base     shared names, Boolean tests, lists, memories of bytes, remainders; `Strings` has the
--            functions of the C library on strings
--   Ring     src/ringbuffer.h: `Ring` is `ringbuffer_t`, and `init`, `available`, `read_one`,
--            `write_one`, `write`, `advance_read` are the functions `ringbuffer_…`. `Inv` has the
--            invariant, `Refine` the queue of bytes that a ring stands for, `Bulk` the block write.
--   Scif     src/scif.c, with functions of the same names. `Stream` has the sequences of calls and
--            interrupts, `Limits` the write that fills the ring and the flush loop.
--   Slip     src/slipdev.c. `accept` and `store` are the rounds of the loop of `slipdev_poll`. `Frame`
--            and `RoundTrip` lead to the round trip, `Bounds` has the invariant of the buffer.
--   Uip      src/uip/uip.c, by part: `Config` constants, `Seq` 32-bit numbers, `Chksum` checksums,
--            `State` the global variables and `struct uip_conn`, `Send` the labels from `appsend` down
--            to `drop`, `Options` the MSS option, `Ports` listening and connecting, `Input` the parts
--            of the input without the application, `States` the switch on the TCP state, `Process`
--            the entries of `uip_process`. Below these, `Input.Echo` is about the ping, `Ports.Choice`,
--            `Ports.Connect` and `Ports.Listen` about the tables, `Process.Timer` and `Process.Moves`
--            about the life of a connection, `Process.Reject` about damaged packets, `Send.Verifies`
--            about what is sent.
--   Objectlog
--            src/objectlog.c, with functions of the same names; `next_loop`, `drop_entries`,
--            `sum_lens`, `write_loop`, `iterator_loop` and `size_loop` are its loops, `write_step` is
--            one round of the writing loop on its variables, `Writer`. `Format` defines the bytes of an
--            object, `Round` and `Write` are about the loop that writes them, `Scatter` about the
--            scatter list, `Length` about the estimate of the size; `Window`, `Object` and `Entries`
--            say how objects stand in the storage, `Walk` how one is skipped, `Read` how one is read;
--            `Queue` is the queue of objects that a log stands for, and `Free`, `Append`, `Add`,
--            `Start` and `Index` are about the operations on it. `Newest` is about its newest object,
--            `Wrapped` about lengths that add up past 2 ^ 16.
--   Psock    src/uip/psock.c, with functions of the same names: a protothread is a function that returns
--            whether it waits; `Line` is about the line buffer, `Reading` about `psock_readto` over the
--            packets, `Sent` about `psock_send`.
--   Keyboard src/ui-keyboard.c: `edit_line` is what a released key does to the input line of a page, in
--            the steps `scroll_line`, `type_character`, `delete_character` and `submit_line`. `Chars`
--            is about the characters, `Line` has the invariant of the line, `Text` its text.
--   Timer    src/uip/timer.c and the tick counter of src/clock-arch.c, with functions of the same names
--   Network  src/network.c: `network_poll` with its two branches, `take_packet` and `tick`; `Answer` is
--            about a packet that comes in.
--   Irc      src/uip/irc.c: `irc_parse_line` with `irc_parse_command`, which calls `privmsg`, `ping` and
--            `other_command`; and the message that the page of the channel submits. `Client` has the
--            protothreads `irc_thread` and `irc_send_thread`, in steps from one wait to the next, and
--            `irc_appcall`. `Strings`, `Print` and `Split` are about the buffers, `Line`, `Said` and
--            `Empty` about lines of the server, `Ping` and `Answer` about its PING.
--   Ui       src/ui.c: `ui_write_log`, `ui_objectlog_get_message` and the loop of `ui_render_logs`, where
--            a line that is drawn is a cursor into the log. `Reading` is about cursors, `Header`
--            about the start of a message, `Logged` and `Short` about messages that are written and
--            looked up.
--   Log      src/log.c: `fxip_log` and `fxip_print_hexdump`; `Digits` is about the lines of a dump.
--   Hayes    src/hayes.c; a round of the loop of `hayes_read` is what `scif_read` gives and the clock
--            says. `Reply` is about the answer of the modem.
--   Tests    the theorems at concrete inputs
--
-- Stateful code takes its state and returns the new one. A label of uip.c is a function, and a
-- `goto` a call of it. Memory is a function from indices to bytes, which also has a value out of
-- bounds; where the code can leave a buffer, a theorem says so or has the bound as a hypothesis.
-- Numbers are natural numbers, with the wrap of `uint8_t` and `uint16_t` written out. The stack is
-- modelled in the configuration of src/uip-conf.h: IPv4, TCP and ICMP, no UDP, no reassembly, no
-- urgent data, statistics and log kept, on a big endian machine. UIP_APPCALL is a parameter of the
-- stack: a function on its state and that of the application. The client of Irc is modelled beside
-- it, over what the stack gives it and takes from it in a call, `Io`.
--
-- Loops of C that may not end return an option, `none` when fuel runs out. `options_fuel` is 41,
-- for an index that stays below 40 in a loop that ends; `port_fuel` is 11, for at most ten ports in
-- use; `scif_read_flush` takes its fuel as an argument; a walk over an object of the log has a
-- round for each byte of the storage, the writing loop two rounds for each byte of data and two
-- more, the loop that drops objects one more than there are entries; a call of `psock_readto` has
-- at most three rounds, one of `psock_send` two more than there are bytes; `irc_thread` has six
-- rounds, for the steps that need no byte of the packet, and one for each byte it can read; the
-- loop that copies the header of a message has four rounds, for three bytes, the one that skips its
-- start two more than the storage has bytes. The theorems about these functions give the cases in
-- which they return. The busy wait of `scif_write` is `none` while it spins; `hayes_read` is a
-- function of the rounds it sees: it goes on where these end before an answer, and its run ends
-- with a write past the end of `hayes_response_buffer`; a string is searched for its end within 2 ^
-- 16 bytes, more than any array of the program has.
--
-- Not modelled: the hardware registers; the drawing to the display, with the page of the statistics
-- and the formatting of `ui_printf` and `fxip_printf`; the parts of uIP that this configuration
-- leaves out; src/main.c, which starts the parts and polls them, and `network_init`; memory blocks,
-- the address parser, ARP and forwarding, which nothing calls; the string routines copied from
-- fxlibc; `psock_generator_send`, which nothing calls.
pub mod Base
pub mod Ring
pub mod Objectlog
pub mod Psock
pub mod Keyboard
pub mod Timer
pub mod Scif
pub mod Slip
pub mod Uip
pub mod Ui
pub mod Irc
pub mod Network
pub mod Log
pub mod Hayes
pub mod Tests
