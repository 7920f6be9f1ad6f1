-- ===== src/Log/Stack/Trace.antt =====
-- The frames of a stack trace as the runtime prints it.
use Prim.Native.String
use text.Mathlib.TextLemmas.{append-nil}
use yuna.Prelude.{
  ℕ, zero, suc, ◌*◌, ℤ, pos, String, Bool, true, false, Option, none, some, List, [], ◌∷◌, ◌≡◌,
  refl, ap, ◌∙◌, arith, drop, map, All,
}
use yuna.Text.{has_prefix}
use yuna.Text.Split.{
  split, trim_prefix, trim_left_of, has_char, split-free, split-at, has_char-append,
  trim_prefix-append,
}
use yuna.Log.Stack.{Frame, skip_lines, frame_of, frames_of, frames_after, parse_stack}

-- A frame as it is printed: the line of the function, with "created by " before the one that
-- started the goroutine; and the line of the file and the line number, with or without an offset.
pub record Shown : Type 0 where
  pub is_creator : Bool
  pub function : String
  pub file : String
  pub number : String
  pub offset : Option String

abbrev pub creator_mark : Bool → String
creator_mark true = "created by "
creator_mark false = ""

abbrev pub function_line : Shown → String
function_line f = String.◌++◌ (creator_mark f.is_creator) f.function

abbrev tail_of : Option String → String
tail_of none = ""
tail_of (some offset) = String.◌++◌ " " offset

abbrev pub file_line : Shown → String
file_line f =
    String.◌++◌ (String.◌++◌ "\t" f.file)
      (String.◌++◌ ":" (String.◌++◌ f.number (tail_of f.offset)))

-- What the runtime's texts do not hold: a new line, a colon but the one before the line number, a
-- space in the line number, a tab at the start of a file's name, and "created by " at the start of
-- a function's.
pub record IsPlain (f : Shown) : Type 0 where
  pub function : has_char b'\n' (function_line f) ≡ false
  pub file : has_char b'\n' (file_line f) ≡ false
  pub name : has_prefix f.function "created by " ≡ false
  pub file_colon : has_char b':' f.file ≡ false
  pub file_tab : trim_left_of b'\t' f.file ≡ f.file
  pub number_colon : has_char b':' f.number ≡ false
  pub number_space : has_char b' ' f.number ≡ false
  pub tail_colon : has_char b':' (tail_of f.offset) ≡ false

function-shown :
    (b : Bool) (name : String)
    → has_prefix name "created by " ≡ false
    → trim_prefix (String.◌++◌ (creator_mark b) name) "created by " ≡ name
unfolding trim_prefix
function-shown true name h = trim_prefix-append "created by " name
function-shown false name h = rw (String.append.nil name) (rw h refl)

split-number :
    (number : String) (o : Option String)
    → has_char b' ' number ≡ false
    → (rest : List String) × (split b' ' (String.◌++◌ number (tail_of o)) ≡ number ∷ rest)
split-number number none h = ([], ap (split b' ') (append-nil number) ∙ split-free b' ' number h)
split-number number (some t) h = (split b' ' t, split-at b' ' number " " t h refl)

split-file :
    (f : Shown)
    → IsPlain f
    → split b':' (file_line f)
      ≡ String.◌++◌ "\t" f.file ∷ String.◌++◌ f.number (tail_of f.offset) ∷ []
split-file f p =
    split-at b':' (String.◌++◌ "\t" f.file) ":" (String.◌++◌ f.number (tail_of f.offset))
      (has_char-append b':' "\t" f.file ∙ ground (arith, p.file_colon)) refl
    ∙ ap (λ ls. String.◌++◌ "\t" f.file ∷ ls)
        (split-free b':' (String.◌++◌ f.number (tail_of f.offset)) (
          has_char-append b':' f.number (tail_of f.offset)
          ∙ ground (arith, p.number_colon, p.tail_colon)))

trim-file : (f : Shown) → IsPlain f → trim_left_of b'\t' (String.◌++◌ "\t" f.file) ≡ f.file
unfolding trim_left_of
trim-file f p =
    ap (trim_left_of b'\t')
      (String.append.cons "\t" "" f.file ∙ ap (String.◌∷◌ "\t") (String.append.nil f.file))
    ∙ p.file_tab

-- The lines of the frames, and a last one that is empty.
abbrev lines_of : List Shown → List String
lines_of [] = "" ∷ []
lines_of (f ∷ fs) = function_line f ∷ file_line f ∷ lines_of fs

-- The text of the frames, a new line after each line.
abbrev body_of : List Shown → String
body_of [] = ""
body_of (f ∷ fs) =
    String.◌++◌ (function_line f)
      (String.◌++◌ "\n" (String.◌++◌ (file_line f) (String.◌++◌ "\n" (body_of fs))))

-- A stack trace, with the line of its goroutine first.
abbrev pub trace_of : String → List Shown → String
trace_of header fs = String.◌++◌ header (String.◌++◌ "\n" (body_of fs))

split-body : (fs : List Shown) → All IsPlain fs → split b'\n' (body_of fs) ≡ lines_of fs
unfolding split
split-body [] ps = refl
split-body (f ∷ fs) (p, ps) =
    split-at b'\n' (function_line f) "\n" _ p.function refl
    ∙ ap (λ ls. function_line f ∷ ls) (split-at b'\n' (file_line f) "\n" _ p.file refl)
    ∙ ap (λ ls. function_line f ∷ file_line f ∷ ls) (split-body fs ps)

two_more : (n : ℕ) → suc n * 2 ≡ suc (suc (n * 2))
two_more n = omega arith

skip_one : (n : ℕ) → skip_lines (pos n) ≡ suc (n * 2)
skip_one n = ground arith

module _ (atoi : String → ℤ) where
  abbrev pub frame_shown : Shown → Frame
  frame_shown f = record { function = f.function; file = f.file; line = atoi f.number }

  frame_of-shown :
      (f : Shown) → IsPlain f → frame_of atoi (function_line f) (file_line f) ≡ some (frame_shown f)
  unfolding frame_of
  frame_of-shown f p =
      let (rest, e) = split-number f.number f.offset p.number_space in
      rw (split-file f p, e, trim-file f p, function-shown f.is_creator f.function p.name) refl

  frames_of-lines :
      (fs : List Shown) → All IsPlain fs → frames_of atoi (lines_of fs) ≡ map frame_shown fs
  unfolding frames_of
  frames_of-lines [] ps = refl
  frames_of-lines (f ∷ fs) (p, ps) =
      rw (frame_of-shown f p) (ap (λ gs. frame_shown f ∷ gs) (frames_of-lines fs ps))

  frames_after-two :
      (n : ℕ) (a b : String) (ls : List String)
      → frames_after atoi (suc n * 2) (a ∷ b ∷ ls) ≡ frames_after atoi (n * 2) ls
  frames_after-two n a b ls = ap (λ m. frames_after atoi m (a ∷ b ∷ ls)) (two_more n) ∙ ground arith

  frames_after-lines :
      (n : ℕ) (fs : List Shown)
      → All IsPlain fs
      → frames_after atoi (n * 2) (lines_of fs) ≡ map frame_shown (drop n fs)
  frames_after-lines zero fs ps = ground (arith, frames_of-lines fs ps)
  frames_after-lines (suc n) [] ps =
      ap (λ m. frames_after atoi m ("" ∷ [])) (two_more n) ∙ ground arith
  frames_after-lines (suc n) (f ∷ fs) (p, ps) =
      frames_after-two n (function_line f) (file_line f) (lines_of fs) ∙ frames_after-lines n fs ps

  frames_after-header :
      (n : ℕ) (header : String) (ls : List String)
      → frames_after atoi (skip_lines (pos n)) (header ∷ ls) ≡ frames_after atoi (n * 2) ls
  frames_after-header n header ls =
      ap (λ m. frames_after atoi m (header ∷ ls)) (skip_one n) ∙ ground arith

  -- Parsing the stack trace that the runtime prints, with any number of frames to skip, gives back
  -- the frames that are left, each with its function, without the mark of a creator, its file,
  -- and its line number as Atoi reads it, whether or not an offset is printed. It takes that the
  -- texts of the frames are plain, and that the first line has no new line in it.
  pub parse_stack-trace_of :
      (header : String) (fs : List Shown) (skip_frames : ℕ)
      → has_char b'\n' header ≡ false
      → All IsPlain fs
      → parse_stack atoi (trace_of header fs) (pos skip_frames)
        ≡ map frame_shown (drop skip_frames fs)
  unfolding parse_stack
  parse_stack-trace_of header fs skip_frames h ps =
      ap (frames_after atoi (skip_lines (pos skip_frames)))
        (split-at b'\n' header "\n" (body_of fs) h refl ∙ ap (λ ls. header ∷ ls) (split-body fs ps))
      ∙ frames_after-header skip_frames header (lines_of fs)
      ∙ frames_after-lines skip_frames fs ps
