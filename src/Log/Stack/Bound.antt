-- ===== src/Log/Stack/Bound.antt =====
-- How many frames a stack trace has.
use yuna.Prelude.{
  ℕ, zero, suc, ◌*◌, ◌-◌, ℤ, String, true, Option, none, some, List, [], ◌∷◌, ◌≡◌, refl, arith, leb,
  length, drop,
}
use yuna.Text.Split.{split}
use yuna.Log.Stack.{Frame, skip_lines, frame_of, add_frame, frames_of, parse_stack}

two_more :
    (a b n : ℕ) → leb a (suc b) ≡ true → leb (2 * b) n ≡ true → leb (2 * a) (suc (suc n)) ≡ true
two_more a b n h k = ground (arith, h, k)

module _ (atoi : String → ℤ) where
  add_frame-length :
      (o : Option Frame) (fs : List Frame)
      → leb (length (add_frame atoi o fs)) (suc (length fs)) ≡ true
  add_frame-length none fs = ground arith
  add_frame-length (some f) fs = ground arith

  frames_of-length : (ls : List String) → leb (2 * length (frames_of atoi ls)) (length ls) ≡ true
  unfolding frames_of
  frames_of-length [] = refl
  frames_of-length (l ∷ []) = refl
  frames_of-length (f ∷ l ∷ ls) =
      two_more _ _ (length ls) (add_frame-length (frame_of atoi f l) (frames_of atoi ls))
        (frames_of-length ls)

  length-drop : (n : ℕ) (ls : List String) → length (drop n ls) ≡ length ls - n
  length-drop zero ls = ground arith
  length-drop (suc n) [] = ground arith
  length-drop (suc n) (l ∷ ls) = ground (arith, length-drop n ls)

  -- A stack trace gives at most one frame for every two lines after those that are skipped.
  pub parse_stack_bound :
      (stack : String) (skip_frames : ℤ)
      → leb
          (2 * length (parse_stack atoi stack skip_frames))
          (length (split b'\n' stack) - skip_lines skip_frames)
        ≡ true
  unfolding parse_stack
  parse_stack_bound stack skip_frames =
      let ls = split b'\n' stack in
      let n = skip_lines skip_frames in
      ground (arith, length-drop n ls, frames_of-length (drop n ls))
