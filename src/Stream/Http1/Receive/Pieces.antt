-- ===== src/Stream/Http1/Receive/Pieces.antt =====
-- asio_server_http1_handler.cc: a field of a header that arrives in several reads, for which llhttp
-- makes one callback for each piece of its name and of its value.
use maock.Prelude.{ℕ, ◌≡◌, refl, ◌∙◌, Bool, some, List, [], ◌∷◌, ◌++◌, map, append-nil}
use maock.Bytes.{Bytes}
use maock.Stream.Connection.{Stream}
use maock.Stream.Http1.{Handler}
use maock.Stream.Http1.Receive.{
  Url, Receiver, Event, header_field, header_value, lower, change_request, add_field, receive,
  receive_all,
}
use maock.Stream.Http1.Receive.Complete.{
  After, After-refl, After-trans, After-Current, Current, Reaches, change_request-After, received,
  with_request, with_fields, receive_all-silent,
}

abbrev pub each_value : Bytes → List Bytes → List (Bytes × Bytes)
each_value name values = map (λ v. (name, v)) values

module _ (parse_url : Bytes → Url) (tls : Bool) (on_request : ℕ → Handler → Handler) where
  abbrev named : Bytes → Receiver → Receiver
  named name r = record r { curr_header_name = lower name }

  named-After : (name : Bytes) (r : Receiver) (s : Stream) → Current r s → After r (named name r) s
  named-After name r s h =
      let a = After-refl r s h in
      record { count = a.count; waiting = a.waiting; streams = a.streams }

  Reaches-values :
      (name : Bytes) (values : List Bytes) (r : Receiver) (s : Stream)
      → Current r s
      → r.curr_header_name ≡ lower name
      → Reaches parse_url tls on_request
          (map header_value values)
          r
          (with_request s (with_fields parse_url tls on_request (each_value name values) s.request))
  unfolding receive add_field change_request
  Reaches-values name [] r s h e = (r, After-refl r s h, λ es. refl)
  Reaches-values name (v ∷ values) r s h e =
      let added = add_field (lower name) v in
      let one = change_request-After added r s h in
      let r1 = change_request added r in
      let (r', a, rest) =
        Reaches-values name values r1 (with_request s (added s.request)) (After-Current one)
          (rw (h, change_request) e) in
      (
        r',
        After-trans one a,
        λ es.
            receive_all-silent parse_url tls on_request (header_value v)
              (map header_value values ++ es) r r1 (rw e refl)
            ∙ rest es,
      )

  receive_all-names :
      (names : List Bytes) (last : Bytes) (r : Receiver) (es : List Event)
      → receive_all parse_url tls on_request (map header_field names ++ (header_field last ∷ es)) r
        ≡ receive_all parse_url tls on_request es (named last r)
  unfolding receive
  receive_all-names [] last r es =
      receive_all-silent parse_url tls on_request (header_field last) es r (named last r) refl
  receive_all-names (n ∷ names) last r es =
      receive_all-silent parse_url tls on_request (header_field n)
        (map header_field names ++ (header_field last ∷ es)) r (named n r) refl
      ∙ receive_all-names names last (named n r) es

  -- For a stream that is open, a field whose name and value arrive in pieces is stored as one
  -- header for each piece of the value, each under the last piece of the name alone, in lower case.
  pub receive_all-pieces :
      (names : List Bytes) (last : Bytes) (values : List Bytes) (r : Receiver) (s : Stream)
      → Current r s
      → (r' : Receiver) × (receive_all parse_url tls on_request
            (map header_field names ++ (header_field last ∷ map header_value values))
            r
          ≡ some (r', []))
        × After r r' (
            with_request s
              (record s.request { header = received (each_value last values) s.request.header }))
  unfolding receive_all
  receive_all-pieces names last values r s h =
      let start = named-After last r s h in
      let (r', a, rest) = Reaches-values last values (named last r) s (After-Current start) refl in
      (
        r',
        receive_all-names names last r (map header_value values)
            ∙ rw (append-nil (map header_value values)) at (rest []),
        After-trans start a,
      )
