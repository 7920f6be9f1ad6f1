-- ===== src/Log/Stack.antt =====
-- log/attr.go: parseStack, which reads the frames of a stack trace. strconv.Atoi is a parameter.
pub mod Trace
pub mod Bound
mod Tests
use Prim.Native.String
use yuna.Prelude.{
  ℕ, suc, ◌+◌, ◌*◌, ℤ, pos, negsuc, String, Bool, Option, none, some, List, [], ◌∷◌, ltb, length,
  drop, if◌then◌else◌,
}
use yuna.Text.Split.{split, trim_prefix, trim_left_of}

pub record Frame : Type 0 where
  pub function : String
  pub file : String
  pub line : ℤ

abbrev pub skip_lines : ℤ → ℕ
skip_lines (pos n) = if ltb 0 n then n * 2 + 1 else 1
skip_lines (negsuc n) = 1

-- `atoi` is strconv.Atoi, by its number, which is zero on an error that is no overflow.
module _ (atoi : String → ℤ) where
  abbrev line_of : String → List String → ℤ
  line_of part [] = atoi part
  line_of part (sub ∷ subs) = atoi sub

  abbrev frame_of_parts : String → List String → Option Frame
  frame_of_parts function (file ∷ part ∷ []) = some (record {
    function = trim_prefix function "created by ";
    file = trim_left_of b'\t' file;
    line = line_of part (split b' ' part);
  })
  frame_of_parts function _ = none

  -- The body of the loop, on two lines.
  unfoldable pub frame_of : String → String → Option Frame
  unfolding split trim_prefix trim_left_of
  frame_of function file_line = frame_of_parts function (split b':' file_line)

  abbrev pub add_frame : Option Frame → List Frame → List Frame
  add_frame none fs = fs
  add_frame (some f) fs = f ∷ fs

  -- The loop, which leaves out a last line by itself.
  unfoldable pub frames_of : List String → List Frame
  unfolding frame_of
  frames_of [] = []
  frames_of (l ∷ []) = []
  frames_of (function ∷ file_line ∷ ls) = add_frame (frame_of function file_line) (frames_of ls)

  abbrev pub frames_after : ℕ → List String → List Frame
  frames_after n ls = if ltb (length ls) n then [] else frames_of (drop n ls)

  unfoldable pub parse_stack : String → ℤ → List Frame
  unfolding frames_of
  parse_stack stack skip_frames = frames_after (skip_lines skip_frames) (split b'\n' stack)

  -- PrettyStack, by its key and its frames: `stack` is what debug.Stack returns.
  unfoldable pub pretty_stack : String → String × List Frame
  unfolding parse_stack
  pretty_stack stack = ("stacktrace", parse_stack stack (pos 2))
