-- ===== src/Lib.antt =====
-- Verification of hula, a proxy that carries many TCP streams over one connection.
--
-- How the program works. The client listens for SOCKS5 (lib/kclient_socks5.cpp, lib/socks5.cpp),
-- decides by rules which destinations go through the proxy (lib/proxyrule.cpp), and opens a stream on
-- a connection to the server (lib/kclient_multiplexer.cpp). Both ends of that connection are stream
-- providers (lib/StreamProvider_KProxyMultiplexer.cpp): they put frames (lib/kpacket.cpp) on one byte
-- stream and call back the streams that the frames belong to. Before that the client sends a name and
-- a password, which the server checks (lib/kserver_multiplexer.cpp). Two streams are joined by a relay
-- (lib/StreamRelay.cpp).
--
-- Which file models what. A function has the source's name in snake_case; a static callback has the
-- arguments of the state that it is registered with.
--   Common      names of the libraries, tests and lemmas on numbers, lists, options, maps and sets
--   Buffer      ROBuf (include/robuf.h), a class of a git submodule, as an interface: the bytes of a
--               buffer, and what join, slice, skip and copy do to them; every theorem holds for all
--               implementations of it
--   Endian      the byte order functions of lib/utils.cpp, on a host of either byte order
--   Packet      lib/kpacket.cpp: decode_packet, decode_all_packet, encode_packet_header, encode_packet.
--               Frame has a parser of contiguous bytes as the specification; Decode, RoundTrip and
--               Stream relate the code to it
--   Multiplexer lib/StreamProvider_KProxyMultiplexer.cpp with init and finish of lib/StreamProvider.cpp:
--               Streams (ids, owners, registered callbacks), Send (what is written), Connect
--               (connections asked for, answered and closed), Dispatch (what arrives); Identifiers,
--               Settle, Delivery, Ask, Request and Faults have the theorems
--   Rules       lib/proxyrule.cpp: the tree of labels, the sets of rules, and in Parse the text of a
--               rule, with parse_url of lib/http.cpp. Cover and Decide have the meaning of a set of
--               rules, Syntax that of a text
--   Relay       lib/StreamRelay.cpp; Steady has the invariant, Events any sequence of events
--   Handshake   Client is lib/kclient_multiplexer.cpp and Server lib/kserver_multiplexer.cpp; Bytes,
--               Agree and Reply have the theorems
--   Socks5      lib/socks5.cpp, the IPv4 texts of lib/utils.cpp (Address), and in Session
--               lib/kclient_socks5.cpp; Run has the theorems
--   Websocket   lib/websocket.cpp: the frames, and in Session an object of WebSocketCommon. Parse has a
--               parser of contiguous bytes as the specification; Decode, RoundTrip and Loop relate the
--               code to it, with Xor, Mask, Cut, Payload and Written; Messages, Closing,
--               Progress and Allowed are about the object
--   Http        lib/http.cpp: the data and the headers; Connection is class Http, Response class
--               HttpRequest. Receive, with Pieces and Lines, is about the callbacks of the parser, Reply
--               and Digits about a response, Names about the names of headers
--   Duplex      include/duplex_map.hpp; Inverse has the invariant
--   StreamByProvider
--               lib/stream_byprovider.cpp. Events is any sequence of calls and callbacks; Waiting and
--               Called count the callbacks, Ending and Sent are about what is sent
--   Base64      lib/base64.cpp; Size is about the size of the text
--
-- State and calls. A component's state is a record of its members. A method takes the state and gives
-- the new one; `Option` is for code with assertions, and `none` is a failed assertion or the use of an
-- iterator that is end(). Calls that leave a component are entries of a log in the state, in order
-- (those of Relay and StreamByProvider have the latest first).
-- An asynchronous callback is a function of its own that the environment calls, so an interleaving is
-- a sequence of such calls. Pointers to callbacks, owners and other objects are numbers; a stream id of
-- the multiplexer is the number of the stream with the number of the object, so that an id whose object
-- was replaced is not the same id. Random draws are arguments.
--
-- Fuel. The loop of decode_all_packet has one round more than there are bytes, and each round that goes
-- on takes three bytes at least, so the fuel is never used up; so too for the loop over WebSocket
-- frames, with two bytes, and for the inner loop of Base64Encode, with 6 bits.
-- All other loops are structural.
--
-- Parameters. The buffer library; the byte order of the host; http_parser_parse_url, the URL parser
-- of a git submodule; http_parser_execute of that library, by the callbacks that it makes; its texts
-- of a status; what is left of a buffer that was moved from; the check of a user in the configuration;
-- what an application's callback does to the multiplexer (`react` in Dispatch); whether the object of a
-- callback is still there (`run` in StreamByProvider).
--
-- What is not modelled. libuv and TLS streams and files (libraries that are not part of the
-- repository), logging, the freeing of memory, statistics, and the user interface. The file server,
-- the configuration files and the tables of sessions of the client and the server are not modelled.
pub mod Common
pub mod Buffer
pub mod Endian
pub mod Packet
pub mod Multiplexer
pub mod Rules
pub mod Relay
pub mod Handshake
pub mod Socks5
pub mod Websocket
pub mod Base64
pub mod Duplex
pub mod Http
pub mod StreamByProvider
