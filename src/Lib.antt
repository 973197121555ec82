-- ===== src/Lib.antt =====
-- maock is an HTTP mock server: a configuration lists services, each a set of match rules on the
-- request and a group of weighted responses made of templates; a request is answered by the most
-- specific service whose rules all match. This library models the parts that decide the answer, and
-- the utilities that they and the transport share.
--
-- A request arrives as an H2Server_Request_Message (Message.antt: H2Server_Request_Message.h). Its
-- match_result caches the outcome of each rule under the number of the rule, and its JSON payload
-- is decoded at the first use. H2Server (Server.antt: H2Server.h) keeps its services in a std::map
-- ordered by H2Server_Request::operator< and tries them from the last to the first;
-- H2Server_Request and Match_Rule (Match.antt: H2Server_Request.h) hold the rules, their matching
-- and both comparisons. OrderedSet.antt is std::set and std::map, a list in ascending order whose
-- insertion keeps an equivalent element. Of the service found, H2Server_Response_Group
-- (Server/Group.antt: H2Server.h) draws a response by weight.
--
-- The response (Response.antt: H2Server_Response.h) is made of a text that tokenize_string cuts at
-- its placeholder (Response/Tokens.antt), of the values of its Arguments (Response/Argument.antt),
-- some of them found by extended JSON pointers (Response/Pointer.antt), and of both put together by
-- produce_payload and produce_headers (Response/Produce.antt).
--
-- Util.antt is util.cc and util.h: characters and hexadecimal text (Util/Hex.antt), percent
-- encoding (Util/Percent.antt), numbers (Util/Number.antt), hosts and lists (Util/Host.antt).
-- Base64.antt is base64.h; Http2/Path.antt and Http2/Status.antt are path_join and the status codes
-- of http2.cc. Util/Check.antt has check_path and the choice of a protocol of ALPN, Util/Case.antt
-- the comparisons without regard to case, and Util/Edit.antt levenshtein. Allocator.antt is
-- allocator.h: the blocks, the regions that are cut out of them, and the texts in these.
-- Http2/Link.antt is parse_link_header of http2.cc. Util/Wire.antt has the integers in network byte
-- order, Util/Date.antt prints dates, and Util/Token68.antt turns Base64 to a token68 and back.
-- Http2/Fields.antt has the header lists of http2.cc and Http2/Path/Normal.antt its normalize_path.
-- Mux.antt is serve_mux of asio_server_serve_mux.cc, which picks a callback by the cleaned path of
-- a request. Http2/Tokens.antt and Http2/Reason.antt are the lookup tables and status texts of
-- http2.cc.
--
-- The transport is Stream.antt. A response (Stream/Reply.antt: asio_server_response.cc, with the
-- generators of asio_common.cc) is a state machine whose calls of its handler are a list of
-- actions. A request (Stream/Request.antt) is what on_header_callback and
-- on_data_chunk_recv_callback of asio_server_http2_handler.cc make of its fields and data.
-- Stream/Connection.antt has the callbacks of that file as steps over the streams of
-- asio_server_base_handler.cc, one step for each callback of the session; a call of the response by
-- the application is a step too. Stream/Http1.antt is on_write of asio_server_http1_handler.cc,
-- with the buffer as a text and data_len, and the sets that order its answers; Stream/Submit.antt
-- is what start_response and submit_trailer of the HTTP/2 handler give to nghttp2, with the cached
-- date; Stream/Http1/Receive.antt has the callbacks of llhttp in that file. Memchunk.antt is
-- memchunk.h: the pool hands out chunks by number, and a chain is the list of its chunks.
--
-- Flow.antt and Flow/Callback.antt are asio_util.cc: the callback that takes a request to its
-- response, through get_matched_request, the throttle, produce_headers and produce_payload, to
-- send_response on the stream. Flow/Posted.antt has the answers that other threads and offloaded
-- Lua functions post, each a call that runs later. Flow/Pool.antt is get_io_service of
-- asio_io_service_pool.cc. Bytes.antt has the std::string that all of them use, Prelude.antt the
-- shared names and lemmas, and Tests.antt the runs on small inputs.
--
-- A text is the list of its bytes. A step of the code that changes a message returns the changed
-- message; `none` stands for exit(1), abort(), an exception that nothing catches and a failing
-- assertion of the JSON library. The names of the code are kept, in snake case.
--
-- Parameters are the code that is not in the repository: std::regex_match and std::regex_search,
-- the JSON library (the record Json), inet_pton, the clock, gmtime and localtime, the random
-- numbers, atoi, the Lua function of a response, whether nghttp2 accepts a response, what
-- http_parser_parse_url finds in a URL, and the addresses of the blocks that `new` gives. Of this
-- repository, call_on_request is a parameter of the callbacks of llhttp: what the application does
-- to the handler before the last callback returns.
--
-- Loops that are not structural run on fuel that is computed from the input: split_from and
-- tokenize_from get one round more than the bytes of the text, and each of their rounds but the
-- last consumes a byte or more; join_loop gets two rounds more than the bytes behind the first one
-- of the path; parse_link_header gets one round more than the bytes of its text, and each round
-- takes a byte or more; select_proto gets one round more than the bytes of its list; append of a
-- chain gets two rounds more than the bytes behind the first one. The loop of on_write that reads a
-- body gets its fuel as an argument, since it need not end.
--
-- Sizes: the integers of parse_uint keep the bound of int64_t. Lengths, positions and weights are
-- natural numbers, since no input reaches 2^64; the narrowing of a total weight to `int` is left
-- out. A char is a number below 256, with one exception that its definition names, hex_to_uint
-- below 128. request_count of an HTTP/1 handler wraps at 2^32, and the theorem on the order of the
-- responses is about fewer than 2^31 requests, where the int32_t ids of the map do not become
-- negative. The costs of levenshtein are natural numbers, and their sums stay in the range of int.
--
-- Not modelled: sockets, TLS and the event loop; push_promise; the Lua step of a response; printing
-- under debug_mode and of statistics; PeekMemchunks and MemchunkBuffer, which nothing uses; and the
-- copies of other projects (pb.c, third-party).

pub mod Prelude
pub mod Bytes
pub mod OrderedSet
pub mod Response
pub mod Message
pub mod Match
pub mod Server
pub mod Util
pub mod Http2
pub mod Allocator
pub mod Base64
pub mod Mux
pub mod Memchunk
pub mod Stream
pub mod Flow
mod Tests
