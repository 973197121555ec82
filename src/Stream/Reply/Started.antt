-- ===== src/Stream/Reply/Started.antt =====
-- asio_server_response.cc: the states that a response can reach.
use maock.Prelude.{
  ℕ, suc, ◌+◌, ◌≡◌, refl, sym, ◌∙◌, inl, inr, Bool, true, false, not, ◌&&◌, ◌||◌, List, [], ◌∷◌,
  ◌++◌, arith, Bool-cases,
}
use maock.Bytes.{Bytes}
use maock.Stream.Reply.{
  Headers, Generator, Reply, Action, start, stream_error, submit_trailer, resume, new_reply,
  is_initial, start_response, write_head, end_with, send_trailer, write_trailer, push_promise_sent,
  call_read,
}

-- A call of a member function. The handler reports a sent promise of pushed streams only.
pub data Call : Type 0 where
  writes_head : ℕ → Headers → Call
  ends : Generator → Call
  writes_trailer : Headers → Call
  reads : ℕ → Call
  sends_promise : Call

-- push_promise_sent is for a pushed response; every other call may be made at any time.
abbrev pub IsAllowed : Call → Reply → Type 0
IsAllowed (writes_head code h) r = Unit
IsAllowed (ends g) r = Unit
IsAllowed (writes_trailer h) r = Unit
IsAllowed (reads len) r = Unit
IsAllowed sends_promise r = r.pushed ≡ true

-- How many of the actions start the response.
abbrev pub starts : List Action → ℕ
starts [] = 0
starts (start code h ∷ acts) = suc (starts acts)
starts (stream_error e ∷ acts) = starts acts
starts (submit_trailer h ∷ acts) = starts acts
starts (resume ∷ acts) = starts acts

pub starts-append : (a b : List Action) → starts (a ++ b) ≡ starts a + starts b
starts-append [] b = omega arith
starts-append (start code h ∷ a) b = omega (arith, starts-append a b)
starts-append (stream_error e ∷ a) b = starts-append a b
starts-append (submit_trailer h ∷ a) b = starts-append a b
starts-append (resume ∷ a) b = starts-append a b

-- A response has its head, and for a pushed stream the promise is sent too.
abbrev pub is_started : Reply → Bool
is_started r = not (is_initial r.state) && (not r.pushed || r.push_promise_sent)

abbrev pub one_if : Bool → ℕ
one_if true = 1
one_if false = 0

module _ (method : Bytes) (accepted : Bool) where
  unfoldable pub act : Call → Reply → Reply × List Action
  act (writes_head code h) r = write_head method accepted code h r
  act (ends g) r = end_with method accepted g r
  act (writes_trailer h) r = write_trailer h r
  act (reads len) r = let (d, r', acts) = call_read len r in (r', acts)
  act sends_promise r = push_promise_sent method accepted r

  -- The states that calls lead to, with all their actions.
  pub data Reach (r : Reply) : List Action → Reply → Type 0 where
    here : Reach r [] r
    next :
        {acts : List Action} {s : Reply} (c : Call)
        → Reach r acts s
        → IsAllowed c s
        → Reach r (acts ++ (act c s).1) (act c s).0

  -- A call starts the response as often as the response becomes started by it.
  abbrev Counts : Reply → Reply × List Action → Type 0
  Counts r s =
      (one_if (is_started s.0) ≡ one_if (is_started r) + starts s.1) × (s.0.pushed ≡ r.pushed)

  act-Counts : (c : Call) (r : Reply) → IsAllowed c r → Counts r (act c r)
  unfolding act
  act-Counts (writes_head code h) r ok = unfold write_head start_response in ground arith
  act-Counts (ends g) r ok = unfold end_with write_head start_response in ground arith
  act-Counts (writes_trailer h) r ok = unfold write_trailer send_trailer in ground arith
  act-Counts (reads len) r ok = unfold call_read send_trailer in ground arith
  act-Counts sends_promise r ok = unfold push_promise_sent start_response in ground arith

  -- Every start of the actions has the head that the response has.
  abbrev pub Carries : Reply → List Action → Type 0
  Carries r [] = Unit
  Carries r (start code h ∷ acts) = (code ≡ r.status_code) × (h ≡ r.header) × Carries r acts
  Carries r (stream_error e ∷ acts) = Carries r acts
  Carries r (submit_trailer h ∷ acts) = Carries r acts
  Carries r (resume ∷ acts) = Carries r acts

  Carries-append : (r : Reply) (a b : List Action) → Carries r a → Carries r b → Carries r (a ++ b)
  Carries-append r [] b h k = k
  Carries-append r (start code x ∷ a) b h k = (h.0, h.1, Carries-append r a b h.2 k)
  Carries-append r (stream_error e ∷ a) b h k = Carries-append r a b h k
  Carries-append r (submit_trailer x ∷ a) b h k = Carries-append r a b h k
  Carries-append r (resume ∷ a) b h k = Carries-append r a b h k

  Carries-same :
      (r s : Reply) (a : List Action)
      → s.status_code ≡ r.status_code
      → s.header ≡ r.header
      → Carries r a
      → Carries s a
  Carries-same r s [] e f h = tt
  Carries-same r s (start code x ∷ a) e f h = (h.0 ∙ sym e, h.1 ∙ sym f, Carries-same r s a e f h.2)
  Carries-same r s (stream_error x ∷ a) e f h = Carries-same r s a e f h
  Carries-same r s (submit_trailer x ∷ a) e f h = Carries-same r s a e f h
  Carries-same r s (resume ∷ a) e f h = Carries-same r s a e f h

  Carries-none : (r : Reply) (a : List Action) → starts a ≡ 0 → Carries r a
  Carries-none r [] h = tt
  Carries-none r (start code x ∷ a) h = absurd (omega arith)
  Carries-none r (stream_error e ∷ a) h = Carries-none r a h
  Carries-none r (submit_trailer x ∷ a) h = Carries-none r a h
  Carries-none r (resume ∷ a) h = Carries-none r a h

  act-Carries : (c : Call) (r : Reply) → Carries (act c r).0 (act c r).1
  unfolding act
  act-Carries (writes_head code h) r = unfold write_head start_response in ground arith
  act-Carries (ends g) r = unfold end_with write_head start_response in ground arith
  act-Carries (writes_trailer h) r = unfold write_trailer send_trailer in ground arith
  act-Carries (reads len) r = unfold call_read send_trailer in ground arith
  act-Carries sends_promise r = unfold push_promise_sent start_response in ground arith

  -- Behind its first state a response keeps its head.
  act-keeps :
      (c : Call) (r : Reply)
      → is_initial r.state ≡ false
      → (is_initial (act c r).0.state ≡ false)
        × ((act c r).0.status_code ≡ r.status_code)
        × ((act c r).0.header ≡ r.header)
  unfolding act
  act-keeps (writes_head code h) r e = unfold write_head start_response in ground arith
  act-keeps (ends g) r e = unfold end_with write_head start_response in ground arith
  act-keeps (writes_trailer h) r e = unfold write_trailer send_trailer in ground arith
  act-keeps (reads len) r e = unfold call_read send_trailer in ground arith
  act-keeps sends_promise r e = unfold push_promise_sent start_response in ground arith

  Carries-next :
      (c : Call) (r : Reply) (acts : List Action)
      → starts acts ≡ one_if (is_started r)
      → Carries r acts
      → Carries (act c r).0 acts
  Carries-next c r acts n h = elim (Bool-cases (is_initial r.state)) [
    | inl early ↦ Carries-none (act c r).0 acts (ground (arith, n))
    | inr late ↦ let (k, e, f) = act-keeps c r late in Carries-same r (act c r).0 acts e f h
  ]

  -- Whatever calls are made of a new response, in whatever order, where push_promise_sent is only
  -- called of a response that is pushed: its start is asked for exactly once if it has its head and, on
  -- a pushed stream, the promise is sent, and never otherwise; and the start that was asked for has the
  -- status and the headers that the response has.
  pub Reach-starts :
      {pushed : Bool} {acts : List Action} {s : Reply}
      → Reach (new_reply pushed) acts s
      → (starts acts ≡ one_if (is_started s)) × (s.pushed ≡ pushed) × Carries s acts
  unfolding new_reply
  Reach-starts here = (refl, refl, tt)
  Reach-starts (next {acts} {s} c reached ok) =
      let (n, p, h) = Reach-starts reached in
      let (m, q) = act-Counts c s ok in
      (
        omega (arith, n, m, starts-append acts (act c s).1),
        q ∙ p,
        Carries-append (act c s).0 acts (act c s).1 (Carries-next c s acts n h) (act-Carries c s),
      )
