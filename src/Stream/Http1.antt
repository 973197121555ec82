-- ===== src/Stream/Http1.antt =====
-- asio_server_http1_handler.cc: the responses of a connection of HTTP/1, and how on_write puts them in
-- the buffer of the connection.
pub mod Buffer
pub mod Rendered
pub mod Written
pub mod Order
pub mod Pipeline
pub mod Ordered
pub mod Answered
pub mod Receive
use maock.Prelude.{
  ℕ, zero, suc, ◌+◌, ◌-◌, ◌%◌, ◌^◌, Bool, true, false, not, ◌&&◌, ◌||◌, Option, none, some, List,
  [], ◌∷◌, ◌++◌, map, ltb, leb, ◌==◌, if◌then◌else◌, length, take, drop,
}
use maock.Prelude.Partial.{◌>>=◌}
use maock.Bytes.{Bytes, codes, eqb}
use maock.Bytes.Decimal.{to_decimal}
use maock.Http2.Reason.{get_reason_phrase}
use maock.Stream.Reply.{
  HeaderValue, Headers, Generator, string, Reply, Read, Action, expects_body, call_read,
}
use maock.Stream.Request.{Request}
use maock.Stream.Connection.{Stream, Streams, find_stream, create_stream, close_stream}

-- The buffer, of which its length is the size, and data_len.
abbrev pub Output : Type 0
Output = Bytes × ℕ

-- copy_n to a place of the buffer; `none` is a byte that is not in it.
unfoldable pub copy_to : ℕ → Bytes → Bytes → Option Bytes
copy_to n [] buffer = some buffer
copy_to n (c ∷ s) buffer =
    if leb (n + length (c ∷ s)) (length buffer)
    then some (take n buffer ++ ((c ∷ s) ++ drop (n + length (c ∷ s)) buffer))
    else none

-- copy_n to the buffer at data_len, and `data_len += size`
unfoldable pub emit : Bytes → Output → Option Output
unfolding copy_to
emit s (buffer, data_len) = copy_to data_len s buffer >>= λ b. some (b, data_len + length s)

abbrev pub zeros : ℕ → Bytes
zeros zero = []
zeros (suc n) = 0 ∷ zeros n

-- inc_step
abbrev pub inc_step : ℕ
inc_step = 16384

unfoldable pub inc_buffer_size : ℕ → Bytes → Bytes
inc_buffer_size required buffer =
    if ltb (length buffer) required then buffer ++ zeros (required + inc_step) else buffer

-- A number of texts that are copied behind one inc_buffer_size for all of them.
unfoldable pub emit_all : List Bytes → Output → Option Output
unfolding emit
emit_all [] o = some o
emit_all (s ∷ ss) o = let rest = emit_all ss in (emit s o >>= λ o'. rest o')

abbrev pub total : List Bytes → ℕ
total [] = 0
total (s ∷ ss) = length s + total ss

unfoldable pub emit_sized : List Bytes → Output → Option Output
unfolding emit_all inc_buffer_size
emit_sized ss (buffer, data_len) = emit_all ss (inc_buffer_size (total ss) buffer, data_len)

abbrev pub crlf : Bytes
crlf = 13 ∷ 10 ∷ []

abbrev pub space : Bytes
space = codes " "

abbrev pub colon : Bytes
colon = codes ":"

abbrev pub content_length : Bytes
content_length = codes "content-length"

-- headers.count
unfoldable pub has_header : Bytes → Headers → Bool
unfolding eqb
has_header name [] = false
has_header name ((k, v) ∷ h) = eqb k name || has_header name h

abbrev pub http_version : Bool → Bytes
http_version keep_alive = if keep_alive then codes "HTTP/1.1" else codes "HTTP/1.0"

-- The texts of the status line, of a content-length header, and of a header.
abbrev pub status_line : Bool → ℕ → List Bytes
status_line keep_alive status =
    http_version keep_alive
    ∷ space
    ∷ to_decimal status
    ∷ space
    ∷ get_reason_phrase status
    ∷ crlf
    ∷ []

abbrev pub length_line : ℕ → List Bytes
length_line size = content_length ∷ colon ∷ to_decimal size ∷ crlf ∷ []

abbrev pub header_line : Bytes → Bytes → List Bytes
header_line name value = name ∷ colon ∷ value ∷ crlf ∷ []

-- The loop over the headers.
unfoldable pub write_headers : Headers → Output → Option Output
unfolding emit_sized
write_headers [] o = some o
write_headers ((name, v) ∷ h) o =
    let rest = write_headers h in (emit_sized (header_line name v.value) o >>= λ o'. rest o')

-- What comes before the body.
unfoldable pub write_head : Bool → Reply → Output → Option Output
unfolding emit_sized has_header write_headers get_reason_phrase to_decimal
write_head keep_alive res o = emit_sized (status_line keep_alive res.status_code) o >>= λ o1.
    (if not (has_header content_length res.header) && ltb 0 res.payload_size
      then emit_sized (length_line res.payload_size) o1
      else some o1)
    >>= λ o2. write_headers res.header o2 >>= λ o3. emit_sized (crlf ∷ []) o3

-- A read into the buffer from `at` on, behind data_len bytes of it. `none` is a write that is not in
-- the buffer, and a deferred generator, of which the code subtracts 508 from data_len and then asks
-- again without end.
unfoldable pub read_to : ℕ → Output → Reply → Option (Output × Bool × Reply)
unfolding call_read copy_to
read_to at (buffer, data_len) res =
    let (d, res', acts) = call_read (length buffer - data_len) res in
    d.bytes >>= λ s. copy_to at s buffer >>= λ b. some ((b, data_len + length s), d.eof, res')

-- The second read and the later ones go to `&buffer[data_len] + data_len`. The loop runs on fuel.
unfoldable pub read_rest : ℕ → Output → Reply → Option (Output × Reply)
unfolding read_to inc_buffer_size
read_rest zero o res = none
read_rest (suc fuel) (buffer, data_len) res =
    let later = read_rest fuel in
    (read_to (data_len + data_len) (inc_buffer_size inc_step buffer, data_len) res >>= λ r.
    if r.1 then some (r.0, r.2) else later r.0 r.2)

unfoldable pub write_body : ℕ → Output → Reply → Option (Output × Reply)
unfolding read_to read_rest
write_body fuel o res =
    read_to o.1 o res >>= λ r. if r.1 then some (r.0, r.2) else read_rest fuel r.0 r.2

-- One round of the loop of on_write, for a stream that is there.
unfoldable pub write_response : ℕ → Bool → Stream → Output → Option Output
unfolding write_head write_body
write_response fuel keep_alive strm o = write_head keep_alive strm.response o >>= λ o'.
    (if expects_body strm.request.method true strm.response.status_code
      then (write_body fuel o' strm.response >>= λ r. some r.0)
      else some o')

-- The rounds of on_write; `none` is also a stream that is not there.
unfoldable pub write_responses : ℕ → Bool → List ℕ → Streams → Output → Option (Streams × Output)
unfolding write_response close_stream find_stream
write_responses fuel keep_alive [] c o = some (c, o)
write_responses fuel keep_alive (id ∷ ids) c o =
    let rest = write_responses fuel keep_alive ids (close_stream id c) in
    (find_stream id c >>= λ strm. write_response fuel keep_alive strm o >>= λ o'. rest o')

-- The members of http1_handler that on_write uses. request_count is a uint32_t; an id of a stream is
-- an int32_t in the map, in the order of which an id from 2^31 on would be negative: the theorems on the
-- order of the responses ask for fewer requests.
pub record Handler : Type 0 where
  pub streams : Streams
  pub request_count : ℕ
  pub stream_ids_to_respond : List ℕ
  pub should_keep_alive : Bool

-- http1_msg_begincb
unfoldable pub begin_message : Handler → Option Handler
unfolding create_stream
begin_message h =
    let count = (h.request_count + 1) % 2 ^ 32 in
    create_stream count h.streams >>= λ c. some (record h { streams = c; request_count = count })

-- insert of a set, in ascending order
unfoldable pub insert_id : ℕ → List ℕ → List ℕ
insert_id id [] = id ∷ []
insert_id id (k ∷ ids) =
    let later = k ∷ insert_id id ids in
    if ltb id k then id ∷ k ∷ ids else if k == id then k ∷ ids else later

unfoldable pub start_response : ℕ → Handler → Handler
unfolding insert_id
start_response id h = record h { stream_ids_to_respond = insert_id id h.stream_ids_to_respond }

-- The loop of get_consecutive_stream_ids_to_respond, behind `last`: the ids that it takes, and the rest.
unfoldable pub take_consecutive : ℕ → List ℕ → List ℕ × List ℕ
take_consecutive last [] = ([], [])
take_consecutive last (id ∷ ids) =
    let (taken, rest) = take_consecutive id ids in
    if id == last + 1 then (id ∷ taken, rest) else ([], id ∷ ids)

abbrev pub is_first : ℕ → Streams → Bool
is_first id [] = false
is_first id ((k, s) ∷ c) = id == k

unfoldable pub get_consecutive_stream_ids_to_respond : Handler → List ℕ × List ℕ
unfolding take_consecutive
get_consecutive_stream_ids_to_respond h = elim h.stream_ids_to_respond [
  | [] ↦ ([], [])
  | id ∷ ids ↦
      let (taken, rest) = take_consecutive id ids in
      if is_first id h.streams then (id ∷ taken, rest) else ([], id ∷ ids)
]

-- on_write: the ids that are answered, the handler and the buffer with data_len.
unfoldable pub on_write : ℕ → Bytes → Handler → Option (List ℕ × Handler × Output)
unfolding get_consecutive_stream_ids_to_respond write_responses
on_write fuel buffer h =
    let (ids, rest) = get_consecutive_stream_ids_to_respond h in
    write_responses fuel h.should_keep_alive ids h.streams (buffer, 0) >>= λ r.
    some (ids, record h { streams = r.0; stream_ids_to_respond = rest }, r.1)
