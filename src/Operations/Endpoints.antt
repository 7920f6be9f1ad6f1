-- ===== src/Operations/Endpoints.antt =====
-- yuna.go: initOpsServer, which builds the operations server over chi, and its /uptime endpoint.
use Prim.Native.String
use yuna.Prelude.{ℤ, String, Bool, true, false, Option, ◌⊎◌}
use yuna.Http.Names.{header_content_type}
use yuna.Mime.Names.{mime_application_json}
use yuna.Http.Header.{Header}
use yuna.Http.Header
use yuna.Log.Logger.{Logger}
use yuna.World.{Handler, Request, World, returned, map_header, write_header, encode}
use yuna.Options.{Config}
use yuna.Router.{Chi}
use yuna.Operations.{put_log_level, info}

abbrev pub uptime_headers : Header → Header
uptime_headers h =
    let h = Header.set "Cache-Control" "no-cache, no-store, must-revalidate" h in
    let h = Header.set "Pragma" "no-cache" h in
    let h = Header.set "Expires" "0" h in Header.set header_content_type mime_application_json h

-- `res` is json.Marshal of the uptime and the time of the start.
unfoldable pub uptime : Option String → World → World
unfolding map_header write_header encode
uptime res w = (encode res (write_header 200 (map_header uptime_headers w))).0

-- What the handlers take from elsewhere: promhttp's handler, net/http's default mux, the health
-- handler; and at a request the build info and the uptime as JSON, the level that its body decodes
-- to or the error, and json.Marshal of an answer. `show` prints an integer.
pub record Sources : Type 0 where
  pub metrics : Handler
  pub default_mux : Handler
  pub health : Handler
  pub build_info : Request → Option (Option String)
  pub uptime : Request → Option String
  pub level : Request → String ⊎ String
  pub response : String → Option String
  pub show : ℤ → String

-- http.Server, as far as the code sets it.
pub record HttpServer (Handle : Type 0) : Type 0 where
  pub addr : String
  pub handler : Handle

abbrev pub get_info : Sources → Handler
get_info z r w = returned (info (z.build_info r) w)

abbrev pub get_uptime : Sources → Handler
get_uptime z r w = returned (uptime (z.uptime r) w)

abbrev pub put_level : Sources → Logger → Handler
put_level z logger r w = returned (put_log_level z.response logger (z.level r) w)

module _ {Store Handle : Type 0} (chi : Chi Store Handle) where
  abbrev pub mount_if : Bool → Handle → String → Handler → Store → Store
  mount_if true m path h s = chi.mount m path h s
  mount_if false m path h s = s

  abbrev pub mount_all : Sources → Config → Handle → Store → Store
  mount_all z conf m s =
      let s = mount_if conf.metrics_enabled m "/metrics" z.metrics s in
      let s = mount_if conf.pprof_enabled m "/debug/pprof/" z.default_mux s in
      mount_if conf.healthcheck_enabled m conf.healthcheck_base_path z.health s

  abbrev pub route_all : Sources → Logger → Handle → Store → Store
  route_all z logger m s =
      let s = chi.get m "/info" (get_info z) s in
      let s = chi.get m "/uptime" (get_uptime z) s in chi.put m "/log/level" (put_level z logger) s

  abbrev init_on : Sources → Logger → Config → Handle × Store → HttpServer Handle × Store
  init_on z logger conf (op_mux, s) =
      let s = route_all z logger op_mux (mount_all z conf op_mux s) in
      (record { addr = String.◌++◌ ":" (z.show conf.operation_http_port); handler = op_mux }, s)

  -- `logger` is z.logger.
  unfoldable pub init_ops_server : Sources → Logger → Config → Store → HttpServer Handle × Store
  unfolding uptime info put_log_level
  init_ops_server z logger conf s = init_on z logger conf (chi.new_router s)
