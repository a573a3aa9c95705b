-- ===== src/Sdk/Frames.antt =====
-- Where the chunks of a response are cut does not matter to `iterateSseFrames`.
use mathlib.Core.List.{append-nil, append_assoc}
use mathlib.Core.Path.{subst}
use open_rush.Prelude.{
  ℕ, zero, suc, ◌≤◌, ◌<◌, ◌&&◌, List, [], ◌∷◌, ◌++◌, Option, none, some, length, ◌≡◌, refl, sym, ap,
  ◌∙◌, inl, inr, ◌==◌, nat_eq, Bool-cases, Option-cases, arith, ◌⊎◌,
}
use open_rush.Sdk.{
  Text, past, split_blank, keep_frame, split_frames, tail_frames, iterate_sse_frames,
}

-- The frames of a buffer and what is left of it.
pub data Splits : Text → List Text → Text → Type 0 where
  done : {b : Text} → split_blank b ≡ none → Splits b [] b
  more :
      {b frame rest left : Text} {frames : List Text}
      → split_blank b ≡ some (frame, rest)
      → Splits rest frames left
      → Splits b (keep_frame frame frames) left

abbrev extend : Text → Option (Text × Text) → Option (Text × Text)
extend r none = none
extend r (some (frame, rest)) = some (frame, rest ++ r)

past-extend :
    (c : ℕ) (r : Text) (o : Option (Text × Text)) → past c (extend r o) ≡ extend r (past c o)
past-extend c r none = refl
past-extend c r (some (frame, rest)) = refl

-- A frame that is found is found whatever follows.
extend-split_blank :
    (b r : Text) → (split_blank b ≡ none) ⊎ (split_blank (b ++ r) ≡ extend r (split_blank b))
unfolding split_blank
extend-split_blank [] r = inl refl
extend-split_blank (c ∷ []) r = inl refl
extend-split_blank (c ∷ d ∷ cs) r = elim (Bool-cases (c == 10 && d == 10)) [
  | inl blank ↦ inr (rw blank)
  | inr text ↦ elim (extend-split_blank (d ∷ cs) r) [
    | inl none_yet ↦ inl (rw (text, none_yet))
    | inr later ↦ inr (rw (text, later) (past-extend c r (split_blank (d ∷ cs))))
  ]
]

none-some {ℓ} : {A : Type ℓ} {a : A} → none ≡ some a → ⊥
none-some e = ground (arith, e)

split_blank-append :
    (b frame rest r : Text)
    → split_blank b ≡ some (frame, rest)
    → split_blank (b ++ r) ≡ some (frame, rest ++ r)
split_blank-append b frame rest r e = elim (extend-split_blank b r) [
  | inl absent ↦ absurd (none-some (sym absent ∙ e))
  | inr found ↦ found ∙ ap (extend r) e
]

-- The rest is shorter than the text.
abbrev Shorter : ℕ → Option (Text × Text) → Type 0
Shorter n none = Unit
Shorter n (some (frame, rest)) = length rest < n

Shorter-past : (c n m : ℕ) (o : Option (Text × Text)) → n ≤ m → Shorter n o → Shorter m (past c o)
Shorter-past c n m none h s = tt
Shorter-past c n m (some (frame, rest)) h s = omega (arith, h, s)

split_blank-Shorter : (b : Text) → Shorter (length b) (split_blank b)
unfolding split_blank
split_blank-Shorter [] = tt
split_blank-Shorter (c ∷ []) = tt
split_blank-Shorter (c ∷ d ∷ cs) = elim (Bool-cases (c == 10 && d == 10)) [
  | inl blank ↦ rw blank (omega arith)
  | inr text ↦ rw text (
      Shorter-past c (length (d ∷ cs)) _ (split_blank (d ∷ cs)) (omega arith)
        (split_blank-Shorter (d ∷ cs)))
]

split_blank-length :
    (b frame rest : Text) → split_blank b ≡ some (frame, rest) → length rest < length b
split_blank-length b frame rest e = subst (Shorter (length b)) e (split_blank-Shorter b)

split_blank_empty : split_blank [] ≡ none
unfolding split_blank
split_blank_empty = refl

pub split_frames-Splits :
    (fuel : ℕ) (b : Text)
    → length b ≤ fuel
    → Splits b (split_frames fuel b).0 (split_frames fuel b).1
unfolding split_frames
split_frames-Splits zero [] h = done split_blank_empty
split_frames-Splits zero (c ∷ cs) h = absurd (omega arith)
split_frames-Splits (suc fuel) b h = elim (Option-cases (split_blank b)) [
  | inl absent ↦ rw (split_frames, absent) (done absent)
  | inr ((frame, rest), found) ↦
      rw (split_frames, found)
        (more found
          (split_frames-Splits fuel rest (omega (arith, h, split_blank-length b frame rest found))))
]

pub Splits-split_frames :
    (fuel : ℕ) (b left : Text) (frames : List Text)
    → Splits b frames left
    → length b ≤ fuel
    → split_frames fuel b ≡ (frames, left)
unfolding split_frames
Splits-split_frames zero b left frames (done e) h = refl
Splits-split_frames (suc fuel) b left frames (done e) h = rw (split_frames, e)
Splits-split_frames zero b left _ (more {frame} {rest} {frames} e s) h =
    absurd (omega (arith, h, split_blank-length b frame rest e))
Splits-split_frames (suc fuel) b left _ (more {frame} {rest} {frames} e s) h = rw (
  split_frames,
  e,
  Splits-split_frames fuel rest left frames s (omega (arith, h, split_blank-length b frame rest e)),
)

keep_frame-append :
    (frame : Text) (xs ys : List Text) → keep_frame frame (xs ++ ys) ≡ keep_frame frame xs ++ ys
keep_frame-append [] xs ys = refl
keep_frame-append (c ∷ cs) xs ys = refl

-- What is left of a chunk is split with the next one.
pub Splits-append :
    (r : Text) {b left left' : Text} {frames frames' : List Text}
    → Splits b frames left
    → Splits (left ++ r) frames' left'
    → Splits (b ++ r) (frames ++ frames') left'
Splits-append r (done e) t = t
Splits-append r {left' = left'} {frames' = frames'} (more {b} {frame} {rest} {left} {frames} e s)
      t =
    subst (λ fs. Splits (b ++ r) fs left') (keep_frame-append frame frames frames')
      (more (split_blank-append b frame rest r e) (Splits-append r s t))

abbrev pub joined : List Text → Text
joined [] = []
joined (chunk ∷ chunks) = chunk ++ joined chunks

-- Frames and rest are determined by the text.
Splits-unique :
    {b left left' : Text} {frames frames' : List Text}
    → Splits b frames left
    → Splits b frames' left'
    → ◌≡◌ {A = List Text × Text} (frames, left) (frames', left')
Splits-unique {b} s t =
    sym (Splits-split_frames (length b) b _ _ s (omega arith))
    ∙ Splits-split_frames (length b) b _ _ t (omega arith)

Splits-quiet : {b left : Text} {frames : List Text} → Splits b frames left → split_blank left ≡ none
Splits-quiet (done e) = e
Splits-quiet (more e s) = Splits-quiet s

abbrev with_tail : Text → List Text × Text → List Text
with_tail flush (frames, left) = frames ++ tail_frames (left ++ flush)

-- However a body is cut into chunks, its frames are those of the whole text, and then the tail.
pub iterate_sse_frames_lem :
    (buffer : Text) (chunks : List Text) (flush left : Text) (frames : List Text)
    → split_blank buffer ≡ none
    → Splits (buffer ++ joined chunks) frames left
    → iterate_sse_frames buffer chunks flush ≡ with_tail flush (frames, left)
unfolding iterate_sse_frames
iterate_sse_frames_lem buffer [] flush left frames quiet s =
    let alone = rw append-nil at s in ap (with_tail flush) (Splits-unique (done quiet) alone)
iterate_sse_frames_lem buffer (chunk ∷ chunks) flush left frames quiet s =
    let b = buffer ++ chunk in
    let (frames', left') = split_frames (length b) b in
    let first = split_frames-Splits (length b) b (omega arith) in
    let after = left' ++ joined chunks in
    let (frames'', left'') = split_frames (length after) after in
    let later = split_frames-Splits (length after) after (omega arith) in
    let together : Splits (b ++ joined chunks) frames left =
      rw (append_assoc buffer chunk (joined chunks)) s in
    let same = Splits-unique (Splits-append (joined chunks) first later) together in
    ap (λ r. frames' ++ r)
      (iterate_sse_frames_lem left' chunks flush left'' frames'' (Splits-quiet first) later)
    ∙ sym (append_assoc frames' frames'' (tail_frames (left'' ++ flush)))
    ∙ ap (with_tail flush) same
