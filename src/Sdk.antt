-- ===== src/Sdk.antt =====
-- The client library's event stream, packages/sdk/src/sse.ts, and the frames that the route
-- apps/web/app/api/v1/agents/[agentId]/runs/[runId]/events/route.ts writes for it. A text is the
-- list of its UTF-16 code units. `JSON.parse`, `JSON.stringify`, `Number` and the text of a number
-- are parameters; `json_parse` is `none` where it throws, and `number` is `none` where the number
-- is no positive integer.
pub mod Frames
pub mod Wire
pub mod Stream
pub mod Delivery
mod Tests
use open_rush.Prelude.{
  ℕ, zero, suc, Bool, true, false, ◌&&◌, ◌||◌, not, List, [], ◌∷◌, ◌++◌, Option, none, some, length,
  if◌then◌else◌, ◌==◌, nat_eq, nat_beq, leb, includes,
}

abbrev pub Text : Type 0
Text = List ℕ

pub record RunEvent {ℓ} (Payload : Type ℓ) : Type ℓ where
  pub id : ℕ
  pub payload : Payload

-- The white space of `trim`.
abbrev pub is_space : ℕ → Bool
is_space c =
    leb 9 c && leb c 13
    || (c == 32
        || (c == 160
            || (c == 5760
                || (leb 8192 c && leb c 8202
                    || (c == 8232
                        || (c == 8233
                            || (c == 8239 || (c == 8287 || (c == 12288 || c == 65279)))))))))

-- `"id: "`, `"data: "`
abbrev pub id_prefix : Text
id_prefix = 105 ∷ 100 ∷ 58 ∷ 32 ∷ []

abbrev pub data_prefix : Text
data_prefix = 100 ∷ 97 ∷ 116 ∷ 97 ∷ 58 ∷ 32 ∷ []

-- `indexOf('\n\n')`: the text before the first empty line and the text behind it.
abbrev pub past : ℕ → Option (Text × Text) → Option (Text × Text)
past c none = none
past c (some (frame, rest)) = some (c ∷ frame, rest)

unfoldable pub split_blank : Text → Option (Text × Text)
split_blank [] = none
split_blank (c ∷ []) = none
split_blank (c ∷ d ∷ cs) =
    let later = past c (split_blank (d ∷ cs)) in if c == 10 && d == 10 then some ([], cs) else later

abbrev pub keep_frame : Text → List Text → List Text
keep_frame [] frames = frames
keep_frame (c ∷ cs) frames = (c ∷ cs) ∷ frames

abbrev pub with_frame : Text → List Text × Text → List Text × Text
with_frame frame (frames, left) = (keep_frame frame frames, left)

-- The loop over the frames of the buffer; each round shortens it, so its length is fuel enough.
unfoldable pub split_frames : ℕ → Text → List Text × Text
unfolding split_blank
split_frames zero buffer = ([], buffer)
split_frames (suc fuel) buffer = elim (split_blank buffer) [
  | none ↦ ([], buffer)
  | some (frame, rest) ↦ with_frame frame (split_frames fuel rest)
]

abbrev pub is_blank : Text → Bool
is_blank [] = true
is_blank (c ∷ cs) = is_space c && is_blank cs

abbrev pub tail_frames : Text → List Text
tail_frames tail = if is_blank tail then [] else tail ∷ []

-- The reads are the decoded chunks; `flush` is what the decoder still held at the end.
unfoldable pub iterate_sse_frames : Text → List Text → Text → List Text
unfolding split_frames
iterate_sse_frames buffer [] flush = tail_frames (buffer ++ flush)
iterate_sse_frames buffer (chunk ∷ chunks) flush =
    let (frames, left) = split_frames (length (buffer ++ chunk)) (buffer ++ chunk) in
    frames ++ iterate_sse_frames left chunks flush

-- `text.split('\n')`
abbrev pub onto_first : ℕ → List Text → List Text
onto_first c [] = (c ∷ []) ∷ []
onto_first c (line ∷ lines) = (c ∷ line) ∷ lines

unfoldable pub split_lines : Text → List Text
split_lines [] = [] ∷ []
split_lines (c ∷ cs) =
    let lines = split_lines cs in if c == 10 then [] ∷ lines else onto_first c lines

unfoldable pub trim_end : Text → Text
trim_end [] = []
trim_end (c ∷ cs) = let rest = trim_end cs in if is_blank (c ∷ cs) then [] else c ∷ rest

-- The field and the value of a line with a colon; one space behind the colon is dropped.
abbrev pub drop_space : Text → Text
drop_space [] = []
drop_space (c ∷ cs) = if c == 32 then cs else c ∷ cs

abbrev pub onto_field : ℕ → Option (Text × Text) → Option (Text × Text)
onto_field c none = none
onto_field c (some (field, value)) = some (c ∷ field, value)

unfoldable pub split_field : Text → Option (Text × Text)
split_field [] = none
split_field (c ∷ cs) =
    let later = onto_field c (split_field cs) in if c == 58 then some ([], drop_space cs) else later

pub data Parsed : Type 0 where
  malformed : Parsed
  parsed : Option ℕ → List Text → Parsed

abbrev pub text_beq : Text → Text → Bool
text_beq [] [] = true
text_beq (a ∷ x) (b ∷ y) = a == b && text_beq x y
text_beq _ _ = false

-- `dataLines.join('\n')`
abbrev pub join_lines : List Text → Text
join_lines [] = []
join_lines (line ∷ []) = line
join_lines (line ∷ next ∷ lines) = line ++ 10 ∷ join_lines (next ∷ lines)

module _ {ℓ} {Payload : Type ℓ} (number : Text → Option ℕ)
    (json_parse : Text → Option Payload) where
  abbrev pub set_id : Option ℕ → List Text → Parsed
  set_id none lines = malformed
  set_id (some n) lines = parsed (some n) lines

  abbrev pub apply_field : Option ℕ → List Text → Text → Text → Parsed
  apply_field id lines field value =
      if text_beq field (105 ∷ 100 ∷ [])
      then set_id (number value) lines
      else parsed id
          (if text_beq field (100 ∷ 97 ∷ 116 ∷ 97 ∷ []) then lines ++ value ∷ [] else lines)

  abbrev pub field_or_skip : Option ℕ → List Text → Option (Text × Text) → Parsed
  field_or_skip id lines none = parsed id lines
  field_or_skip id lines (some (field, value)) = apply_field id lines field value

  -- A comment starts with a colon.
  abbrev pub parse_line : Option ℕ → List Text → Text → Parsed
  parse_line id lines [] = parsed id lines
  parse_line id lines (c ∷ cs) =
      if c == 58 then parsed id lines else field_or_skip id lines (split_field (c ∷ cs))

  unfoldable pub parse_lines : Parsed → List Text → Parsed
  unfolding trim_end split_field
  parse_lines malformed lines = malformed
  parse_lines (parsed id found) [] = parsed id found
  parse_lines (parsed id found) (line ∷ lines) =
      parse_lines (parse_line id found (trim_end line)) lines

  abbrev pub with_payload : ℕ → Option Payload → Option (RunEvent Payload)
  with_payload n none = none
  with_payload n (some v) = some (record { id = n; payload = v })

  abbrev pub frame_event : Parsed → Option (RunEvent Payload)
  frame_event (parsed (some n) (line ∷ lines)) =
      with_payload n (json_parse (join_lines (line ∷ lines)))
  frame_event _ = none

  unfoldable pub parse_sse_frame : Text → Option (RunEvent Payload)
  unfolding parse_lines split_lines
  parse_sse_frame text = frame_event (parse_lines (parsed none []) (split_lines text))

-- `id: ${ev.seq}\ndata: ${payload}\n\n`
module _ {ℓ} {Payload : Type ℓ} (number_text : ℕ → Text) (stringify : Payload → Text) where
  unfoldable pub frame_body : RunEvent Payload → Text
  frame_body e = (id_prefix ++ number_text e.id) ++ 10 ∷ (data_prefix ++ stringify e.payload)

  unfoldable pub frame_text : RunEvent Payload → Text
  unfolding frame_body
  frame_text e = frame_body e ++ 10 ∷ 10 ∷ []

  -- What `drain` writes for the events that it read.
  unfoldable pub drain : List (RunEvent Payload) → Text
  unfolding frame_text
  drain [] = []
  drain (e ∷ events) = frame_text e ++ drain events
