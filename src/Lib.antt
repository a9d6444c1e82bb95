-- ===== src/Lib.antt =====
-- iolbox: the protocol codecs, capture tools and state machines of the iolbox supervisor, a Go program
-- that runs network labs of IOS images (IOL). The parts modelled here stand between a lab's nodes and
-- its users, and each is pure code behind a socket, a lock or a file:
--
-- * Telnet models supervisor/internal/telnet/iac.go. The Negotiator strips telnet from a console's
--   byte stream and answers option requests; two of them can face one another, in the console hub and
--   in the web bridge. `feed` is Feed, `take_reply` is Reply, `handle_do` and its siblings are the
--   cases of handleOption, `naws` is NAWS. The maps are functions to Bool. Telnet/Streams is about cut
--   streams and escapes, Telnet/Options about repeated requests, Telnet/Exchange about two sides.
-- * Ws models supervisor/internal/ws/ws.go, by which a browser reaches a console: `read_message`,
--   `read_frame`, `read_frame_header`, `unmask`, `write_frame`. The buffered reader is the list of
--   bytes that the peer sends. The net.Conn is a parameter, which bytes it takes. Ws/Frames has the
--   frames that a client sends, by RFC 6455; Ws/Messages and Ws/Fragments are about what is read;
--   Ws/Progress is about the fuel.
-- * Relay/Classify models supervisor/internal/relay/classify.go, which labels each frame on a link.
--   An index out of range is `none`. Total is about the bounds, Window and Vlan about the offset that
--   a tag adds, Ports about the well-known ports.
-- * Dirstat models supervisor/internal/dirstat/dirstat.go, which counts those labels for each endpoint
--   of a link and learns which address stands behind it. Conflicts and Invariant are about one
--   operation, Traces about every sequence of them.
-- * Relay/Pcapng models supervisor/internal/relay/pcapng.go, the capture stream. The io.Writer is a
--   parameter. Blocks and Stream hold a reader of the format, the specification.
-- * Iouyap/Header models supervisor/internal/iouyap/header.go, the netio header between IOL and the
--   relay.
-- * Nvram models supervisor/internal/nvram/nvram.go, the image by which a node gets its startup-config:
--   `encode`, `decode`, `set_checksum`. Layout, Checksum and RoundTrip are the proofs.
-- * Node/State and Node/Ports model supervisor/internal/node/state.go and ports.go: the state machine
--   of a node's process and the console ports. A call of To is two steps, the transition under the lock
--   and the callback behind it, and Callbacks is about calls that overlap; a lock makes each method of
--   the ports one step.
-- * Node/ConsoleHub models supervisor/internal/node/console_hub.go, where a node's one pty meets its
--   subscribers. Input has the turns: `gated_write`, `claim_turn`, `write_turn`, `release_once`; Turns
--   and Arbitration are about any sequence of requests. Output has `broadcast`, `register_locked`,
--   `detach` and `shutdown`, and Broadcasts, Events and Screens are about what a subscriber sees.
--   Batch has the read loop. Nvt has the line endings, Attach the reader of a TCP client, which also
--   uses Telnet, and Keyboard is about it. What a pty does with a write is a parameter.
-- * Netmap models supervisor/internal/netmap/netmap.go: the instance ids that IOL accepts, the pool of
--   ids reserved for a bridge, and the interfaces of a node. Pool and Interfaces are the proofs.
--   Netmap/Names has the names of interfaces, `parse_iface` and `iface_name`; Decimal and Parse are
--   the proofs.
-- * Lab models supervisor/internal/lab: the lab document and its interface lists, lab.go and
--   interfaces.go. Lab/Validate models Validate of validate.go, loop by loop, with a constructor of
--   `Violation` for each error. Lab/WellFormed describes a good document without order or maps, and
--   Lab/Validate/Refinement sets the two against one another; Steps, Nodes, NodeMaps, Endpoints,
--   EndpointLoop and Links are its lemmas. IOL interface names go through Netmap/Names.
-- * Extnet/Leaser models the leaser of supervisor/internal/extnet/dhcp.go, which gives the clients of
--   a NAT node their addresses. Bindings and Distinct are the proofs. Extnet/Dhcp models the packets of
--   the same file, `decode_packet`, `encode` and `handle`; Options, Policy and Replies are the proofs.
-- * Extnet/Server models supervisor/internal/extnet/dhcp_linux.go, the server that takes requests out
--   of a NAT node's frames: `consume`, `parse_dhcp`, `build_frame`. It uses both of the former.
--   Exchange is about a client's frames in order, Wire about the headers.
-- * TapOwner models supervisor/internal/server/tapowner.go and bridgeplan.go, with the loop of
--   startFabric in supervisor/internal/server/fabric_linux.go that opens taps: the process-wide record
--   of who pumps which kernel device. Sole is about closing, Evictions about what goes before an
--   opening, Steps about any order of openings, ends and sweeps.
-- * Tacacs models runtime/files/tools/packs/aaa/gui/tacacs_wire.go, the wire format of the lab's
--   TACACS+ server: the header, the pad and the packet here, the fields in Tacacs/Fields, the bodies in
--   Tacacs/Authen and Tacacs/Requests. MD5 is a parameter, of which the theorems use that a digest is
--   16 bytes. Pad and the modules RoundTrips, Replies and Accounting are the proofs.
--   Tacacs/Server models tacacs.go beside it, one connection of the server: `accept_header`,
--   `handle_authen`, `handle_author`, `handle_acct`, `write_error` and the loop `handle_conn`. It takes
--   the configuration from Radius. Login, Replies, Sequence and Rounds are the proofs. The text of an
--   error is a parameter, and so is which writes the connection takes.
-- * Radius models runtime/files/tools/packs/aaa/gui/radius.go, the lab's RADIUS server:
--   `evaluate_access_request`, `response_for`, `parse_radius_packet`, the hidden password,
--   `verify_message_authenticator`, the ring of attempts, and the client's `build_access_request`. The
--   packets are in Radius/Packets. Access is about whole requests, Signature about the message
--   authenticator; Attributes, Password and Attempts are about their parts. MD5, HMAC and the lower
--   case of a trimmed text are parameters.
-- * Common has the shared names, tests, lists, bytes, integers with a sign, texts and the exclusive or.
--
-- A byte is a number below 256, a text a list of bytes, and a wider integer a number with the
-- wrap-around written out. Errors are constructors, without the text of the message.
--
-- Bounds and fuel: the loops of readFrame and ReadMessage have one unit of fuel more than the input
-- has bytes, since each round takes two bytes at least; the carry loop of setChecksum has three
-- rounds, after which a 32-bit sum has no carry left; the pool's loop has the 525 ids from 500 to
-- 1024; the exchange of two negotiators is given eight messages; the loop over DHCP options has a unit
-- for each byte, the decimal digits one more than the number, and the pad of a TACACS+ body one for
-- each of its bytes, of which a digest makes 16; a TACACS+ connection has one more than the client's
-- bytes, of which a round takes 12; RADIUS attributes and password blocks have one for each byte; the
-- console's read loop has one more than the reads of the pty, since a batch takes one. The captures,
-- frames, runs and tables have no bound of the model's own; a frame of a capture must fit a 32-bit
-- block, and a text of an image 32 bits.
--
-- Not modelled: sockets, taps, processes, files and goroutines around these parts, so two starts of
-- fabrics that overlap, and the teardown of a fabric; of ws.go the HTTP
-- handshake, Close and the deadlines; of dirstat.go the snapshot, the rates in floating point, the
-- print of an address and Close; of netmap.go the text of the NETMAP file;
-- of lab.go the JSON decoder and the fields that are only shown; and the other packages of the
-- supervisor, the other programs of the tool packs under runtime and those under tools.
pub mod Common
pub mod Dirstat
pub mod Extnet
pub mod Iouyap
pub mod Lab
pub mod Netmap
pub mod Node
pub mod Nvram
pub mod Relay
pub mod Tacacs
pub mod Radius
pub mod TapOwner
pub mod Telnet
pub mod Ws
