-- ===== src/Response/Produce/Payload.antt =====
-- H2Server_Response.h: produce_payload and the values of its arguments.
use maock.Prelude.{
  ℕ, ◌+◌, ◌<◌, ◌≡◌, refl, ap, ◌∙◌, inl, inr, Bool, true, false, not, Option, none, some, List, [],
  ◌∷◌, ◌++◌, map, append-nil, arith, ◌==◌, if◌then◌else◌, Bool-cases, Option-cases, length,
}
use maock.Prelude.Partial.{◌>>=◌}
use maock.Bytes.{Bytes, is_empty}
use maock.Response.Pointer.{Json, get_value_from_json_ptr}
use maock.Response.Tokens.{tokenize_string}
use maock.Response.Tokens.Join.{join, join-tokenize_string}
use maock.Response.Argument.{
  Argument, new_argument, Outside, header_value, finish_value, generated_value, get_value,
}
use maock.Response.Produce.{SchemaText, Template, new_template, fill, produce_payload}
use maock.Message
use maock.Message.{Message}

abbrev pub weave : List Bytes → List Bytes → Bytes
weave [] vs = []
weave (t ∷ ts) [] = t ++ weave ts []
weave (t ∷ ts) (v ∷ vs) = t ++ (v ++ weave ts vs)

module _ (search : Bytes → Bytes → Option Bytes) (json : Json) where
  abbrev Msg : Type 0
  Msg = Message json

  -- The value of an argument, with no change of state.
  abbrev pub value : Argument → Outside → Msg → Option Bytes
  value a o m =
      if not (is_empty a.json_pointer)
      then (get_value_from_json_ptr json
            (Message.document_of json m.json_payload_string m.json_payload) a.json_pointer
          >>= λ s. some (finish_value search a s))
      else some (
          finish_value search a (elim (header_value search a m.headers) [
            | some v ↦ v
            | none ↦ generated_value a.val_type o m.raw_payload
          ]))

  -- An argument with a JSON pointer leaves the payload decoded.
  abbrev pub after : Argument → Msg → Msg
  after a m = if not (is_empty a.json_pointer) then Message.decode_json_if_not_yet json m else m

  bind_some :
      (o : Option Bytes) (f : Bytes → Bytes) (d : Msg)
      → ◌>>=◌ {B = Bytes × Msg} o (λ s. some (f s, d))
        ≡ ((o >>= λ s. some (f s)) >>= λ v. some (v, d))
  bind_some none f d = refl
  bind_some (some s) f d = refl

  get_value-value :
      (a : Argument) (o : Outside) (m : Msg)
      → get_value search json a o m ≡ (value a o m >>= λ v. some (v, after a m))
  unfolding get_value
  get_value-value a o m = elim (Bool-cases (not (is_empty a.json_pointer))) [
    | inl pointer ↦
        let found =
          get_value_from_json_ptr json
            (Message.document_of json m.json_payload_string m.json_payload) a.json_pointer in
        rw pointer (bind_some found (finish_value search a) (Message.decode_json_if_not_yet json m))
    | inr other ↦ rw other
  ]

  value-decoded :
      (decoded : Bool) (a : Argument) (o : Outside) (m : Msg)
      → value a o (if decoded then Message.decode_json_if_not_yet json m else m) ≡ value a o m
  unfolding Message.decode_json_if_not_yet
  value-decoded true a o m = refl
  value-decoded false a o m = refl

  -- The values of the arguments, all of the request as it came.
  abbrev pub all_values : List Argument → (ℕ → Outside) → ℕ → Msg → Option (List Bytes)
  all_values [] env k m = some []
  all_values (a ∷ arguments) env k m =
      let later = all_values arguments env (k + 1) m in
      (value a (env k) m >>= λ v. later >>= λ vs. some (v ∷ vs))

  abbrev pub after_all : List Argument → Msg → Msg
  after_all [] m = m
  after_all (a ∷ arguments) m = after_all arguments (after a m)

  all_values-decoded :
      (decoded : Bool) (arguments : List Argument) (env : ℕ → Outside) (k : ℕ) (m : Msg)
      → all_values arguments env k (if decoded then Message.decode_json_if_not_yet json m else m)
        ≡ all_values arguments env k m
  all_values-decoded decoded [] env k m = refl
  all_values-decoded decoded (a ∷ arguments) env k m =
      rw (value-decoded decoded a (env k) m, all_values-decoded decoded arguments env (k + 1) m)

  fill-tokens :
      (ts : List Bytes) (env : ℕ → Outside) (k : ℕ) (m : Msg)
      → fill search json ts [] env k m ≡ some (weave ts [], m)
  unfolding fill
  fill-tokens [] env k m = refl
  fill-tokens (t ∷ ts) env k m = rw (fill-tokens ts env k m)

  bind_weave :
      (t v : Bytes) (ts : List Bytes) (o : Option (List Bytes)) (d : Msg)
      → ((◌>>=◌ {B = Bytes × Msg} o (λ vs. some (weave ts vs, d))) >>= λ p.
          some (t ++ (v ++ p.0), p.1))
        ≡ ◌>>=◌ {B = Bytes × Msg} (o >>= λ vs. some (v ∷ vs)) (λ vs. some (weave (t ∷ ts) vs, d))
  bind_weave t v ts none d = refl
  bind_weave t v ts (some vs) d = refl

  fill-weave :
      (ts : List Bytes) (arguments : List Argument) (env : ℕ → Outside) (k : ℕ) (m : Msg)
      → length arguments < length ts
      → fill search json ts arguments env k m
        ≡ (all_values arguments env k m >>= λ vs. some (weave ts vs, after_all arguments m))
  unfolding fill
  fill-weave [] arguments env k m h = absurd (omega arith)
  fill-weave (t ∷ ts) [] env k m h = rw (fill-tokens ts env k m)
  fill-weave (t ∷ ts) (a ∷ arguments) env k m h =
      rw (get_value-value a (env k) m) (elim (Option-cases (value a (env k) m)) [
        | inl stop ↦ rw stop
        | inr (v, found) ↦
            let rest = fill-weave ts arguments env (k + 1) (after a m) (omega arith) in
            rw found (
              ap (λ (o : Option (Bytes × Msg)). o >>= λ p. some (t ++ (v ++ p.0), p.1))
                (rw (all_values-decoded (not (is_empty a.json_pointer)) arguments env (k + 1) m) at
                  rest)
              ∙ bind_weave t v ts (all_values arguments env (k + 1) m)
                  (after_all arguments (after a m)))
      ])

  -- For a response whose configuration is accepted, the payload is the tokens of the configured
  -- text with the values of the arguments between them, each as it is for the request as it came;
  -- the program stops exactly where one of the values does.
  pub produce_payload-weave :
      (t : SchemaText) (r : Template) (env : ℕ → Outside) (m : Msg)
      → new_template t ≡ some r
      → produce_payload search json r env m ≡ (
          all_values (map new_argument t.arguments) env 0 m >>= λ vs. some (
            weave (tokenize_string t.text t.placeholder) vs,
            after_all (map new_argument t.arguments) m,
          ))
  unfolding produce_payload new_template
  produce_payload-weave t r env m h =
      let tokens = tokenize_string t.text t.placeholder in
      let arguments = map new_argument t.arguments in
      elim (Bool-cases (length tokens == length arguments + 1)) [
        | inl fits ↦
            let e : some (record { tokens = tokens; arguments = arguments }) ≡ some r =
              rw fits at h in
            let same : (r.tokens ≡ tokens) × (r.arguments ≡ arguments) = ground arith in
            rw (same.0, same.1) (fill-weave tokens arguments env 0 m (ground arith))
        | inr wrong ↦ absurd (ground (arith, rw wrong at h))
      ]

-- With the placeholder itself for each value, the configured text comes back.
weave-join :
    (d : Bytes) (ts : List Bytes) (arguments : List Argument)
    → length ts ≡ length arguments + 1
    → weave ts (map (λ _. d) arguments) ≡ join d ts
weave-join d [] arguments h = refl
weave-join d (t ∷ []) [] h = append-nil t
weave-join d (t ∷ []) (a ∷ arguments) h = absurd (omega arith)
weave-join d (t ∷ u ∷ ts) [] h = absurd (omega arith)
weave-join d (t ∷ u ∷ ts) (a ∷ arguments) h =
    ap (λ (s : Bytes). t ++ (d ++ s)) (weave-join d (u ∷ ts) arguments (omega arith))

-- For a response whose configuration is accepted, weaving the placeholder in for each argument
-- gives the configured text back: every argument has its place, and no text is lost.
pub weave-new_template :
    (t : SchemaText) (r : Template)
    → new_template t ≡ some r
    → weave r.tokens (map (λ _. t.placeholder) r.arguments) ≡ t.text
unfolding new_template
weave-new_template t r h =
    let tokens = tokenize_string t.text t.placeholder in
    let arguments = map new_argument t.arguments in
    elim (Bool-cases (length tokens == length arguments + 1)) [
      | inl fits ↦
          let e : some (record { tokens = tokens; arguments = arguments }) ≡ some r =
            rw fits at h in
          let same : (r.tokens ≡ tokens) × (r.arguments ≡ arguments) = ground arith in
          rw (same.0, same.1)
            (weave-join t.placeholder tokens arguments (ground arith)
              ∙ join-tokenize_string t.text t.placeholder)
      | inr wrong ↦ absurd (ground (arith, rw wrong at h))
    ]
