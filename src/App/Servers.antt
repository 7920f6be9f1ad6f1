-- ===== src/App/Servers.antt =====
-- yuna.go: the main server's settings, and Close and RegisterOnShutdown. What net/http's
-- servers do is a parameter: a call by its error and what it leaves of the servers' state.
use Prim.Native.String
use yuna.Prelude.{ℕ, ℤ, String, Option}
use yuna.Server.{Which, operations, main}
use yuna.Options.{Config}

-- http.Server, as far as New sets it; its handler is the Yuna.
pub record MainServer : Type 0 where
  pub addr : String
  pub read_timeout : ℤ
  pub read_header_timeout : ℤ
  pub write_timeout : ℤ
  pub idle_timeout : ℤ
  pub base_context : Option ℕ

-- `show` prints an integer.
unfoldable pub main_server : (ℤ → String) → Config → MainServer
main_server show conf = record {
  addr = String.◌++◌ ":" (show conf.http_port);
  read_timeout = conf.read_timeout;
  read_header_timeout = conf.read_header_timeout;
  write_timeout = conf.write_timeout;
  idle_timeout = conf.idle_timeout;
  base_context = conf.base_context;
}

-- http.Server's Close, by its error, and RegisterOnShutdown.
pub record Servers (S : Type 0) : Type 0 where
  pub close : Which → S → Option String × S
  pub register_on_shutdown : Which → (S → S) → S → S

module _ {S : Type 0} (net : Servers S) where
  unfoldable pub close : S → Option String × S
  close s = let (_, s) = net.close operations s in net.close main s

  unfoldable pub register_on_shutdown : (S → S) → S → S
  register_on_shutdown f s = net.register_on_shutdown main f s
