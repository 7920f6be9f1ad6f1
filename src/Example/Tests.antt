-- ===== src/Example/Tests.antt =====
-- A request without a token, and one with it.
use yuna.Prelude.{String, Option, none, some, List, [], ◌∷◌, ◌≡◌, refl, true, false}
use yuna.World.{Any, value}
use yuna.Auth.{end_span}
use yuna.Sample.{marshal, start, request, world}
use yuna.Example.Silly.{silly_route, silly_route_guarded, outcome_for, is_blank}

abbrev string_map : List (String × String) → Any
string_map entries = value 0

abbrev parse : String → Option String
parse s = none

silly_route_guarded_run :
    silly_route marshal string_map start parse request world
    ≡ end_span (
        outcome_for marshal string_map start parse
          (is_blank marshal string_map start parse world)
          request
          world)
silly_route_guarded_run = silly_route_guarded marshal string_map start parse request world

without_token : is_blank marshal string_map start parse world ≡ true
unfolding yuna.Text.trim_space yuna.Http.Header.canonical yuna.Http.Header.get yuna.Prelude.lookup
without_token = refl
