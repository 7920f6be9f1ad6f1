-- ===== src/Log/Stack/Tests.antt =====
-- A stack trace of three frames, of which two are skipped.
use yuna.Prelude.{
  ℤ, pos, ◌*◌, ◌-◌, String, true, false, none, some, List, [], ◌∷◌, ◌≡◌, refl, leb, length, map,
}
use yuna.Text.Split.{split}
use yuna.Log.Stack.{parse_stack, skip_lines}
use yuna.Log.Stack.Trace.{Shown, IsPlain, trace_of, frame_shown, parse_stack-trace_of}
use yuna.Log.Stack.Bound.{parse_stack_bound}

abbrev shown : Shown
shown = record {
  is_creator = false;
  function = "main.serve(0x1)";
  file = "/app/main.go";
  number = "31";
  offset = some "+0x1d";
}

abbrev creator : Shown
creator = record {
  is_creator = true;
  function = "main.main";
  file = "/app/main.go";
  number = "12";
  offset = none;
}

abbrev atoi : String → ℤ
atoi s = pos 31

abbrev header : String
header = "goroutine 1 [running]:"

abbrev shown_all : List Shown
shown_all = shown ∷ shown ∷ creator ∷ []

shown-IsPlain : IsPlain shown
unfolding yuna.Text.has_prefix yuna.Text.Split.trim_left_of
shown-IsPlain = record {
  function = refl;
  file = refl;
  name = refl;
  file_colon = refl;
  file_tab = refl;
  number_colon = refl;
  number_space = refl;
  tail_colon = refl;
}

creator-IsPlain : IsPlain creator
unfolding yuna.Text.has_prefix yuna.Text.Split.trim_left_of
creator-IsPlain = record {
  function = refl;
  file = refl;
  name = refl;
  file_colon = refl;
  file_tab = refl;
  number_colon = refl;
  number_space = refl;
  tail_colon = refl;
}

parse_stack-trace_of_example :
    parse_stack atoi (trace_of header shown_all) (pos 2) ≡ map (frame_shown atoi) (creator ∷ [])
parse_stack-trace_of_example =
    parse_stack-trace_of atoi header shown_all 2 refl
      (shown-IsPlain, (shown-IsPlain, (creator-IsPlain, tt)))

parse_stack_bound_run :
    leb
      (2 * length (parse_stack atoi "goroutine 1 [running]:\nmain.main()\n" (pos 0)))
      (length (split b'\n' "goroutine 1 [running]:\nmain.main()\n") - skip_lines (pos 0))
    ≡ true
parse_stack_bound_run = parse_stack_bound atoi "goroutine 1 [running]:\nmain.main()\n" (pos 0)
