-- ===== src/Lib.antt =====
-- shitty, an HTTP server in C++: its HTTP/1 and HTTP/2 transports, the buffers and connections below them,
-- and the header compression (HPACK, RFC 7541) in src/dependencies/hpack of the repository.
--
-- The program. A connection reads octets into a StreamBuf and gives it to its transport's onInput. The
-- HTTP/1 transport reads a message line by line and hands it to its subclass. The HTTP/2 transport
-- reads frames: HEADERS are decoded by HPACK and answered, SETTINGS and PING are answered, the
-- windows are updated. What a transport sends goes through a Payload to the connection, which sends
-- it or queues it. `HeaderDecoder::parseHeaders` reads a header block field by field. A
-- field names its header by an index into the static table or the connection's dynamic table, or
-- holds it as literals, and may be inserted in the dynamic table. Integers are coded by number.c,
-- literal strings by huffy/encode.c and huffy/decode.c; the decoder takes its input from the bit
-- reader of huffy/bitbuf.c.
--
-- Which file models which part, HPACK first:
--   Number: decode_number and encode_number of number.c. decode_octets and encode_octets are their
--     loops. Number/Value has the format of RFC 7541, 5.1 that the decoder is compared with.
--   Huffman/Reader: struct bitbuf, struct bb_reader, bb_load_next, bb_next, bb_peek, bb_eos and
--     bb_reader_init of huffy/bitbuf.c and bitbuf.h. The bytes between pos and end are a list.
--   Huffman/Tables: the six tables of huffy/decode.c, in runs of equal entries.
--   Huffman/Codes: huffy/huffcodes.txt, from which the build makes the encoder's table.
--   Huffman/Decode: huffman_decode of huffy/decode.c; decode_symbol, second_octet, third_octet and
--     fourth_octet are one pass of its loop.
--   Huffman/StringDecode: string_decode and string_decode_alloc of huffy/decode.c.
--   Huffman/Encode: encode and huffman_encode of huffy/encode.c; encode_symbol is one pass of the loop,
--     made of fill_partial, write_octets and keep_partial.
--   Headers/Static and Headers/Table: Header, static_table, DynamicTable, StaticTable and HeaderTable
--     of header.h and header.cpp.
--   Headers/Decoder: the static functions that decode strings, and HeaderDecoder, of header.cpp.
--   Headers/Encoder: hpack_encode_string of header.cpp.
--   Http2/Frame, Http2/FrameType, Http2/HeadersFrame: src/http2/Frame.h, Frame.cpp, HeadersFrame.h and
--     DataFrame.h.
--   Http2/Settings, Http2/FlowControl, Http2/Stream: src/http2/Settings.h and Settings.cpp,
--     FlowControl.h, ServerStream.h and ServerStream.cpp.
--   Http2/Transport: src/http2/ServerTransport.cpp. Its fields, the map of streams and the constructor are in
--     the file itself, the handlers of the frames in Handlers, onInput with the loop of frames in Frames.
--   Http1/Lines: src/http1/HTTP1.cpp, StatusStrings.cpp. Http1/Transport: src/http1/Transport.cpp.
--   Http1/Server: what is sent over HTTP/1, of src/http1/Transport.cpp, src/http1/ServerTransport.cpp,
--     src/Stream.cpp and src/Headers.cpp. Http1/Dispatch: what src/http1/ServerTransport.cpp does with a message.
--   Http1/Upgrade: src/http1/UpgradeRegistry.cpp, HTTP2Upgrader.cpp, and tryUpgrade of ServerTransport.cpp.
--   Http1/Client, Http1/ClientSource: src/http1/ClientTransport.cpp, ClientTransportSource.cpp.
--   Date: src/Date.cpp, whose string is the date that is sent.
--   Routes: src/Routes.cpp, StaticResponder.cpp, and addRoute of Server.cpp.
--   Text: src/StringUtils-inl.h. Messages: src/Headers.h and Headers.cpp, Message.h, Request.h.
--   Buffers, Buffers/Payload: src/StreamBuf.h and StreamBuf.cpp, src/Payload.h and Payload-inl.h.
--   Connection: sending, in src/Connection.cpp. Connection/Reading: its onPollIn.
--   Switch: the choice between HTTP/1 and HTTP/2, of src/SwitchTransport.cpp.
--   Bits: machine words as arithmetic, and strings of bits. Prelude: names and lemmas that all share.
--
-- How they interact. Buffers/Queue is the interface of a StreamBuf: its octets as a list, and dequeue, which
-- the transports call for `advance`. Http2/Transport/Handlers calls parse_headers of Headers/Decoder with the
-- connection's dynamic table, add_window_size, create_from_buffer and the streams. Http1/Transport calls
-- get_line and get_content_length, of Http1/Lines, and the functions of Text. Http1/Dispatch gives it what the
-- server does with a message: try_upgrade of Http1/Upgrade, which makes a transport of Http2, or dispatch of
-- Routes, whose responses Http1/Server sends. Fed, of Connection/Reading/Feeds, is what a connection owes
-- its transport, whichever it is. Headers/Decoder
-- calls decode_number, huffman_decode and the tables' get, insert and resize. huffman_encode calls
-- encode_number. Reads, of Huffman/Reader/Refine, is the interface of the reader: a reader stands for a string
-- of bits, which the decoder's proofs use alone. The decoding step is compared with Lookup, of
-- Huffman/Decode, which reads octets with no reader.
--
-- Conventions. An octet is a number below 256; uint8_t, unsigned and uintmax_t wrap at 8, 32 and 64
-- bits, where the code can reach that; int32_t is an integer in its range. Whether char has a sign is a
-- parameter. A negative return value is none, or a constructor of a result
-- type. A C++ exception, a failed assert and undefined behaviour are values of Exception; a handler that
-- throws leaves no state, since nothing in the program catches it. Reads out of
-- range are undefined_behaviour, fault or undefined, and none of a safe call's results. A pointer into
-- a buffer is a list of the octets from there on. Written has the octets that a call wrote and the
-- cells behind them. What a transport hands to Connection::send is a list in its state.
--
-- Bounds and fuel. write_octets has as much fuel as the code has bits, and takes eight of them in each
-- pass. evict and shrink have as much as the table has headers, and count one off in each pass. parse_headers
-- takes a fuel of its own: as many units as the buffer has octets are enough. The loops of onInput take one
-- unit for a pass: two more than the buffer has octets are enough in HTTP/2, one more in HTTP/1. All other
-- loops are recursion on the input, on the system's answers or on the room in the output. Table sizes are
-- taken below 2^31, where the 32-bit sums do not wrap; lengths of buffers below 2^61 or 2^64, where it is
-- said.
--
-- Parameters. The encoder's table of Huffman codes is generated by the build; the hypothesis is that it holds
-- huffcodes.txt. The base64 decoder of HTTP2-Settings is a git submodule. The methods that a subclass of the
-- HTTP/1 transport overrides are functions of the message. The answers of the system's send and read are lists. The
-- date is a string, and a new connection to a backend a number or an error. A handler of a route is a function.
--
-- Not modelled: name_encoded and value_encoded, with the encoded forms they keep, and the getIndex methods, of header.cpp; calls with null
-- pointers; handlers that respond later, as the proxy's do; the handing over of the buffer to the transport that
-- is chosen between HTTP/1 and HTTP/2; the event loop, the table of connections,
-- sockets, signals and the proxy, which are calls of the operating system.
pub mod Prelude
pub mod Bits
pub mod Number
pub mod Huffman
pub mod Headers
pub mod Text
pub mod Messages
pub mod Buffers
pub mod Http2
pub mod Http1
pub mod Connection
pub mod Switch
pub mod Routes
pub mod Date
