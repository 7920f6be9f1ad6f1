-- ===== src/Log/Logger/Options.antt =====
-- What the options of a new logger change.
use yuna.Prelude.{ℕ, String, List, [], ◌∷◌, ◌++◌, ◌≡◌, refl}
use yuna.Log.Level.{Level}
use yuna.Log.Logger.{
  LogState, LogOption, with_writer, Config, apply_option, apply_options, new_config, new, stderr,
}

apply_options-append :
    (os ps : List LogOption) (c : Config)
    → apply_options (os ++ ps) c ≡ apply_options ps (apply_options os c)
unfolding apply_options
apply_options-append [] ps c = refl
apply_options-append (o ∷ os) ps c = apply_options-append os ps (apply_option o c)

-- `WithWriter` has no effect: a logger made with it, after any options, is the one made without it,
-- and writes to standard error.
pub with_writer_ignored :
    (name : Level → String) (opts : List LogOption) (w : ℕ) (s : LogState)
    → (new name (opts ++ with_writer w ∷ []) s ≡ new name opts s)
      × ((new name opts s).0.settings.output ≡ stderr)
unfolding new
with_writer_ignored name opts w s =
    (rw (apply_options-append opts (with_writer w ∷ []) (new_config name)) refl, refl)
