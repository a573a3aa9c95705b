-- ===== src/Sdk/Wire.antt =====
-- The frames that the route writes, read by the client.
use mathlib.Core.List.{append-nil, append_assoc}
use open_rush.Prelude.{
  ℕ, ◌≤◌, false, List, [], ◌∷◌, ◌++◌, map, Option, none, some, ◌≡◌, refl, ap, ◌∙◌, ◌==◌, nat_eq,
  All, arith,
}
use open_rush.Sdk.{
  Text, RunEvent, is_blank, id_prefix, data_prefix, past, split_blank, iterate_sse_frames,
  split_lines, trim_end, split_field, parsed, parse_line, parse_lines, parse_sse_frame, frame_body,
  frame_text, drain,
}
use open_rush.Sdk.Frames.{Splits, done, more, joined, iterate_sse_frames_lem}

abbrev pub OneLine : Text → Type 0
OneLine = All (λ c. (c == 10) ≡ false)

-- A text without a line break that is not blank and does not end in white space.
pub record IsSolid (t : Text) : Type 0 where
  pub one_line : OneLine t
  pub not_blank : is_blank t ≡ false
  pub trimmed : trim_end t ≡ t

abbrev prepend : Text → Option (Text × Text) → Option (Text × Text)
prepend [] o = o
prepend (c ∷ t) o = past c (prepend t o)

split_blank-cons :
    (c : ℕ) (t : Text) → (c == 10) ≡ false → split_blank (c ∷ t) ≡ past c (split_blank t)
unfolding split_blank
split_blank-cons c [] h = refl
split_blank-cons c (d ∷ t) h = rw h

split_blank-OneLine :
    (t rest : Text) → OneLine t → split_blank (t ++ rest) ≡ prepend t (split_blank rest)
split_blank-OneLine [] rest h = refl
split_blank-OneLine (c ∷ t) rest h =
    split_blank-cons c (t ++ rest) h.0 ∙ ap (past c) (split_blank-OneLine t rest h.1)

prepend-some : (t frame rest : Text) → prepend t (some (frame, rest)) ≡ some (t ++ frame, rest)
prepend-some [] frame rest = refl
prepend-some (c ∷ t) frame rest = ap (past c) (prepend-some t frame rest)

split_lines-OneLine : (t : Text) → OneLine t → split_lines t ≡ t ∷ []
unfolding split_lines
split_lines-OneLine [] h = refl
split_lines-OneLine (c ∷ t) h = rw (h.0, split_lines-OneLine t h.1)

split_lines-append :
    (t rest : Text) → OneLine t → split_lines (t ++ 10 ∷ rest) ≡ t ∷ split_lines rest
unfolding split_lines
split_lines-append [] rest h = refl
split_lines-append (c ∷ t) rest h = rw (h.0, split_lines-append t rest h.1)

is_blank-append : (a b : Text) → is_blank b ≡ false → is_blank (a ++ b) ≡ false
is_blank-append [] b h = h
is_blank-append (c ∷ a) b h = ground (arith, is_blank-append a b h)

trim_end-append : (a b : Text) → is_blank b ≡ false → trim_end b ≡ b → trim_end (a ++ b) ≡ a ++ b
unfolding trim_end
trim_end-append [] b h e = e
trim_end-append (c ∷ a) b h e =
    rw (is_blank-append (c ∷ a) b h) (ap (λ r. c ∷ r) (trim_end-append a b h e))

two_lines_shape :
    (t u rest : Text) → ((t ++ 10 ∷ u) ++ 10 ∷ 10 ∷ []) ++ rest ≡ t ++ 10 ∷ (u ++ 10 ∷ 10 ∷ rest)
two_lines_shape t u rest = simp append_assoc

split_blank_two_lines :
    (t : Text) (d : ℕ) (u rest : Text)
    → OneLine t
    → OneLine (d ∷ u)
    → split_blank (((t ++ 10 ∷ (d ∷ u)) ++ 10 ∷ 10 ∷ []) ++ rest) ≡ some (t ++ 10 ∷ (d ∷ u), rest)
split_blank_two_lines t d u rest ht hu =
    let last : split_blank (10 ∷ 10 ∷ rest) ≡ some ([], rest) = unfold split_blank in refl in
    let second : split_blank ((d ∷ u) ++ 10 ∷ 10 ∷ rest) ≡ some (d ∷ u, rest) =
      split_blank-OneLine (d ∷ u) (10 ∷ 10 ∷ rest) hu ∙ rw (last, prepend-some, append-nil) in
    let break : split_blank (10 ∷ (d ∷ u) ++ 10 ∷ 10 ∷ rest)
        ≡ past 10 (split_blank ((d ∷ u) ++ 10 ∷ 10 ∷ rest)) =
      unfold split_blank in rw hu.0 in
    rw (two_lines_shape t (d ∷ u) rest)
      (split_blank-OneLine t _ ht ∙ rw (break, second) (prepend-some t (10 ∷ d ∷ u) rest))

split_lines_two : (t u : Text) → OneLine t → OneLine u → split_lines (t ++ 10 ∷ u) ≡ t ∷ u ∷ []
split_lines_two t u ht hu = split_lines-append t u ht ∙ rw (split_lines-OneLine u hu)

module _ {ℓ} {Payload : Type ℓ} (number_text : ℕ → Text) (stringify : Payload → Text)
    (number : Text → Option ℕ) (json_parse : Text → Option Payload) where
  -- What the two ends rely on: a number and a JSON text stand on one line, without white space at
  -- the end, and are read back as what was written.
  pub record TextLaws : Type ℓ where
    pub number_text_solid : (n : ℕ) → IsSolid (number_text n)
    pub number_back : (n : ℕ) → 1 ≤ n → number (number_text n) ≡ some n
    pub stringify_solid : (v : Payload) → IsSolid (stringify v)
    pub parse_back : (v : Payload) → json_parse (stringify v) ≡ some v

module _ {ℓ} {Payload : Type ℓ} (number_text : ℕ → Text) (stringify : Payload → Text)
    (number : Text → Option ℕ) (json_parse : Text → Option Payload)
    (laws : TextLaws number_text stringify number json_parse) where
  -- The two lines of a frame.
  id_line : ℕ → Text
  id_line n = id_prefix ++ number_text n

  data_line : Payload → Text
  data_line v = data_prefix ++ stringify v

  id_line-OneLine : (n : ℕ) → OneLine (id_line n)
  unfolding id_line
  id_line-OneLine n = (refl, (refl, (refl, (refl, (laws.number_text_solid n).one_line))))

  data_line-OneLine : (v : Payload) → OneLine (data_line v)
  unfolding data_line
  data_line-OneLine v =
      (refl, (refl, (refl, (refl, (refl, (refl, (laws.stringify_solid v).one_line))))))

  split_blank-frame_text :
      (e : RunEvent Payload) (rest : Text)
      → split_blank (frame_text number_text stringify e ++ rest)
        ≡ some (frame_body number_text stringify e, rest)
  unfolding frame_text id_line data_line
  split_blank-frame_text e rest =
      split_blank_two_lines (id_line e.id) 100 _ rest (id_line-OneLine e.id)
        (data_line-OneLine e.payload)

  parse_id_line :
      (n : ℕ)
      → 1 ≤ n
      → parse_line number json_parse none [] (trim_end (id_line n)) ≡ parsed (some n) []
  unfolding id_line
  parse_id_line n h =
      let solid = laws.number_text_solid n in
      let trimmed = trim_end-append id_prefix (number_text n) solid.not_blank solid.trimmed in
      rw trimmed (unfold split_field in rw (laws.number_back n h))

  parse_data_line :
      (n : ℕ) (v : Payload)
      → parse_line number json_parse (some n) [] (trim_end (data_line v))
        ≡ parsed (some n) (stringify v ∷ [])
  unfolding data_line
  parse_data_line n v =
      let solid = laws.stringify_solid v in
      let trimmed = trim_end-append data_prefix (stringify v) solid.not_blank solid.trimmed in
      rw trimmed (unfold split_field in refl)

  parse_lines_step :
      (id : Option ℕ) (found : List Text) (line : Text) (lines : List Text)
      → parse_lines number json_parse (parsed id found) (line ∷ lines)
        ≡ parse_lines number json_parse
            (parse_line number json_parse id found (trim_end line))
            lines
  unfolding parse_lines
  parse_lines_step id found line lines = refl

  parse_two_lines :
      (n : ℕ) (v : Payload)
      → 1 ≤ n
      → parse_lines number json_parse (parsed none []) (id_line n ∷ data_line v ∷ [])
        ≡ parsed (some n) (stringify v ∷ [])
  parse_two_lines n v h =
      parse_lines_step none [] (id_line n) (data_line v ∷ [])
      ∙ ap (λ p. parse_lines number json_parse p (data_line v ∷ [])) (parse_id_line n h)
      ∙ parse_lines_step (some n) [] (data_line v) []
      ∙ ap (λ p. parse_lines number json_parse p []) (parse_data_line n v)
      ∙ unfold parse_lines in refl

  parse_sse_frame-frame_body :
      (e : RunEvent Payload)
      → 1 ≤ e.id
      → parse_sse_frame number json_parse (frame_body number_text stringify e) ≡ some e
  unfolding parse_sse_frame frame_body id_line data_line
  parse_sse_frame-frame_body e h =
      let lines =
        split_lines_two (id_line e.id) (data_line e.payload) (id_line-OneLine e.id)
          (data_line-OneLine e.payload) in
      rw (lines, parse_two_lines e.id e.payload h, laws.parse_back e.payload)

  Splits-drain :
      (events : List (RunEvent Payload))
      → Splits
          (drain number_text stringify events)
          (map (frame_body number_text stringify) events)
          []
  unfolding drain
  Splits-drain [] = done {b = []} (unfold split_blank in refl)
  Splits-drain (e ∷ events) =
      let whole =
        more (split_blank-frame_text e (drain number_text stringify events))
          (Splits-drain events) in
      unfold frame_body in whole

  parse-bodies :
      (events : List (RunEvent Payload))
      → All (λ e. 1 ≤ e.id) events
      → map (parse_sse_frame number json_parse) (map (frame_body number_text stringify) events)
        ≡ map some events
  parse-bodies [] h = refl
  parse-bodies (e ∷ events) h = rw (parse_sse_frame-frame_body e h.0, parse-bodies events h.1)

  -- The frames that the route writes for events with positive numbers, cut into chunks anywhere,
  -- are read back by the client as those events, in their order, provided that the texts of numbers
  -- and of JSON values stand on one line without white space at their end and read back as what
  -- was written.
  pub parse_sse_frame-drain :
      (events : List (RunEvent Payload)) (chunks : List Text)
      → All (λ e. 1 ≤ e.id) events
      → joined chunks ≡ drain number_text stringify events
      → map (parse_sse_frame number json_parse) (iterate_sse_frames [] chunks []) ≡ map some events
  parse_sse_frame-drain events chunks positive same =
      let bodies = map (frame_body number_text stringify) events in
      let quiet : split_blank [] ≡ none = unfold split_blank in refl in
      let framed : Splits ([] ++ joined chunks) bodies [] = rw same (Splits-drain events) in
      let read : iterate_sse_frames [] chunks [] ≡ bodies =
        iterate_sse_frames_lem [] chunks [] [] bodies quiet framed ∙ append-nil bodies in
      rw read (parse-bodies events positive)
