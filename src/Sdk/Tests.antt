-- ===== src/Sdk/Tests.antt =====
-- A stream of three events over a connection that is cut, and its frames on the wire.
use open_rush.Prelude.{
  ℕ, zero, suc, ◌≤◌, Bool, true, false, List, [], ◌∷◌, ◌++◌, map, Option, none, some, length, take,
  drop, take-append-drop, ◌≡◌, refl, sym, ap, ◌==◌, nat_eq, arith,
}
use open_rush.Sdk.{Text, RunEvent, trim_end, iterate_sse_frames, parse_sse_frame, drain}
use open_rush.Sdk.Wire.{OneLine, IsSolid, TextLaws, parse_sse_frame-drain}
use open_rush.Sdk.Stream.{Ending, eof, failed, World, StreamEnd, default_policy, stream_events}
use open_rush.Sdk.Delivery.{
  IsLog, behind, cut_frame, Prefix, Serves, Ended, default_policy-stops, stream_events_lem,
}

abbrev event : ℕ → Bool → RunEvent Bool
event n v = record { id = n; payload = v }

-- The payload `true` stands for the terminal event.
abbrev log : List (RunEvent Bool)
log = event 1 false ∷ event 2 false ∷ event 4 true ∷ []

log-IsLog : IsLog log
log-IsLog = ((omega arith, (omega arith, tt)), ((omega arith, tt), (tt, tt)))

-- The first connection fails after one event.
abbrev cut : ℕ → ℕ
cut zero = 1
cut (suc k) = 3

abbrev ending : ℕ → Ending
ending zero = failed
ending (suc k) = eof

abbrev flaky : World Bool
flaky = record {
  connect = λ k last. (map some (take (cut k) (behind last log)) ++ cut_frame true, ending k);
  aborted_before = λ k. false;
  aborted_after = λ k. false;
  aborted_pause = λ k. false;
}

flaky-Serves : Serves log flaky
flaky-Serves k last = (
  take (cut k) (behind last log),
  true,
  (drop (cut k) (behind last log), sym (take-append-drop (cut k) (behind last log))),
  refl,
)

abbrev is_done : RunEvent Bool → Bool
is_done e = e.payload

stream_events_run : stream_events is_done default_policy flaky 6 none ≡ (log, StreamEnd.returned)
unfolding stream_events default_policy
stream_events_run = refl

stream_events_lem_example :
    Prefix (stream_events is_done default_policy flaky 6 (some 1)).0 (behind 1 log)
    × Ended (stream_events is_done default_policy flaky 6 (some 1)).1
stream_events_lem_example =
    stream_events_lem is_done default_policy flaky log 5 6 (some 1) log-IsLog flaky-Serves
      default_policy-stops (omega arith)

-- Numbers in unary, and payloads as one digit.
abbrev ones : ℕ → Text
ones zero = []
ones (suc n) = 49 ∷ ones n

abbrev number_text : ℕ → Text
number_text n = 49 ∷ ones n

abbrev number : Text → Option ℕ
number [] = none
number (c ∷ []) = none
number (c ∷ d ∷ t) = some (suc (length t))

abbrev stringify : Bool → Text
stringify true = 49 ∷ []
stringify false = 48 ∷ []

abbrev json_parse : Text → Option Bool
json_parse [] = none
json_parse (c ∷ t) = some (c == 49)

ones-OneLine : (n : ℕ) → OneLine (ones n)
ones-OneLine zero = tt
ones-OneLine (suc n) = (refl, ones-OneLine n)

trim_end-ones : (n : ℕ) → trim_end (ones n) ≡ ones n
unfolding trim_end
trim_end-ones zero = refl
trim_end-ones (suc n) = ap (λ r. 49 ∷ r) (trim_end-ones n)

length-ones : (n : ℕ) → length (ones n) ≡ n
length-ones zero = refl
length-ones (suc n) = ap suc (length-ones n)

number_back : (n : ℕ) → 1 ≤ n → number (number_text n) ≡ some n
number_back zero h = absurd (omega arith)
number_back (suc n) h = ap (λ m. some (suc m)) (length-ones n)

stringify-IsSolid : (v : Bool) → IsSolid (stringify v)
unfolding trim_end
stringify-IsSolid true = record { one_line = (refl, tt); not_blank = refl; trimmed = refl }
stringify-IsSolid false = record { one_line = (refl, tt); not_blank = refl; trimmed = refl }

parse_back : (v : Bool) → json_parse (stringify v) ≡ some v
parse_back true = refl
parse_back false = refl

unary_laws : TextLaws number_text stringify number json_parse
unary_laws = record {
  number_text_solid = λ n. record {
    one_line = (refl, ones-OneLine n);
    not_blank = refl;
    trimmed = trim_end-ones (suc n);
  };
  number_back = number_back;
  stringify_solid = stringify-IsSolid;
  parse_back = parse_back;
}

-- The chunks end inside a frame and between the two line breaks of another.
abbrev wire : Text
wire = drain number_text stringify log

abbrev chunks : List Text
chunks = take 3 wire ∷ take 16 (drop 3 wire) ∷ drop 16 (drop 3 wire) ∷ []

parse_sse_frame-drain_example :
    map (parse_sse_frame number json_parse) (iterate_sse_frames [] chunks []) ≡ map some log
unfolding drain
parse_sse_frame-drain_example =
    parse_sse_frame-drain number_text stringify number json_parse unary_laws log chunks
      (omega arith, (omega arith, (omega arith, tt))) refl
