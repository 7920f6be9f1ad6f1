-- ===== src/Log/Logger/Shared.antt =====
-- Loggers made from one another share their level.
use yuna.Prelude.{String, List, [], ◌∷◌, ◌≡◌, ◌≢◌, refl, arith, ◌<◌}
use yuna.Log.Level.{Level, Attr}
use yuna.Log.Logger.{Logger, LogState, LogOption, with_attrs, with_group, level_of, set_level, new}

-- One way to make a logger from another.
pub data Derive : Type 0 where
  attrs : List Attr → Derive
  group : String → Derive

unfoldable pub derive : List Derive → Logger → Logger
unfolding with_attrs with_group
derive [] l = l
derive (attrs args ∷ ds) l = derive ds (with_attrs args l)
derive (group g ∷ ds) l = derive ds (with_group g l)

derive-level : (ds : List Derive) (l : Logger) → (derive ds l).level ≡ l.level
unfolding derive
derive-level [] l = refl
derive-level (attrs args ∷ ds) l = derive-level ds (with_attrs args l)
derive-level (group g ∷ ds) l = derive-level ds (with_group g l)

-- Setting the level of a logger that was made from `l` by any number of `With` and `WithGroup`
-- calls sets the level of every logger made from `l` in this way, and leaves alone the level of a
-- logger with another cell.
pub set_level_shared :
    (ds es : List Derive) (l other : Logger) (lvl : Level) (s : LogState)
    → other.level ≢ l.level
    → let s' = set_level lvl (derive ds l) s in
      (level_of (derive es l) s' ≡ lvl) × (level_of other s' ≡ level_of other s)
unfolding set_level level_of
set_level_shared ds es l other lvl s n = ground (arith, derive-level ds l, derive-level es l)

-- A new logger has a level cell of its own: setting its level leaves every older logger's level as
-- it was, for a logger whose cell was handed out before.
pub new_has_own_level :
    (name : Level → String) (opts : List LogOption) (l : Logger) (lvl : Level) (s : LogState)
    → l.level < s.next
    → let made = new name opts s in level_of l (set_level lvl made.0 made.1) ≡ level_of l s
unfolding set_level level_of new
new_has_own_level name opts l lvl s h = ground arith
