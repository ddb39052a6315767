-- ===== src/Entity/IdTag.antt =====
-- The id tag of a card, with the source that a charge point may put before a colon:
-- `SplitIdTag` and `NewUserTag` of entity/user_tag.go.
use Prim.Native.Char.{code}
use evsys.Common.{
  Bool, String, false, if◌then◌else◌, int_has_eq, nat_has_eq, string_has_eq, true, ◌==◌,
}

-- strings.Contains(s, ":")
unfoldable pub has_colon : String → Bool
has_colon String.[] = false
has_colon (String.◌∷◌ c s) = if code c == b':' then true else has_colon s

-- The part of a text before its first colon: `strings.Split(s, ":")[0]`.
unfoldable pub before_colon : String → String
before_colon String.[] = String.[]
before_colon (String.◌∷◌ c s) = if code c == b':' then String.[] else String.◌∷◌ c (before_colon s)

-- The part of a text after its first colon.
unfoldable pub after_colon : String → String
after_colon String.[] = String.[]
after_colon (String.◌∷◌ c s) = if code c == b':' then s else after_colon s

unfoldable pub split_id_tag : String → String × String
unfolding has_colon before_colon after_colon
split_id_tag tag =
    if has_colon tag then (before_colon tag, before_colon (after_colon tag)) else ("", tag)
