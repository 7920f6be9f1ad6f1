-- ===== src/Options/Tests.antt =====
-- Three options of a server.
use yuna.Prelude.{pos, false, none, List, [], ◌∷◌, ◌≡◌}
use yuna.Options.{BaseOption, new_config, with_http_port, with_metrics}
use yuna.Sample.{marshal, logs}
use yuna.Options.Last.{last_option_wins}
use yuna.Options.Last.Fields.{
  last_or, given, port_of, ops_port_of, auth_of, health_of, base_path_of, logger_of,
}

abbrev chosen : List BaseOption
chosen = with_http_port (pos 80) ∷ with_metrics ∷ with_http_port (pos 81) ∷ []

last_option_wins_example :
    let c = new_config marshal logs chosen in
    (c.http_port ≡ last_or (pos 8080) (given port_of chosen))
    × (c.operation_http_port ≡ last_or (pos 8082) (given ops_port_of chosen))
    × (c.authenticator ≡ last_or none (given auth_of chosen))
    × (c.healthcheck_enabled ≡ last_or false (given health_of chosen))
    × (c.healthcheck_base_path ≡ last_or "/healthz" (given base_path_of chosen))
    × (c.logger ≡ last_or logs.global (given logger_of chosen))
last_option_wins_example = last_option_wins marshal logs chosen
