-- ===== src/Controller/Names.antt =====
-- `sanitizeAgentName` of internal/controller/agent_config.go
pub mod Laws
use Prim.Native.Char.{char}
use Prim.Native.String.{[], ◌∷◌}
use agent_runtime_operator.Base.{
  String, Char, code, Bool, ◌&&◌, ◌||◌, ◌==◌, leb, eqb, if◌then◌else◌,
}

abbrev pub agent_container_name : String
agent_container_name = "agent"

-- '_'
abbrev pub underscore : Char
underscore = char b'_' tt

abbrev pub is_digit : Char → Bool
is_digit c = leb b'0' (code c) && leb (code c) b'9'

-- a letter, a digit or an underscore
abbrev pub is_word : Char → Bool
is_word c =
    leb b'a' (code c) && leb (code c) b'z'
    || leb b'A' (code c) && leb (code c) b'Z'
    || is_digit c
    || eqb (code c) b'_'

-- The loop over the runes. Its last two cases both write an underscore.
unfoldable pub replace_others : String → String
replace_others [] = []
replace_others (c ∷ s) =
    let rest = replace_others s in
    if is_word c
    then c ∷ rest
    else if eqb (code c) b'-'
    then underscore ∷ rest
    else underscore ∷ rest

-- an underscore in front of a leading digit
unfoldable pub guard_first : String → String
guard_first [] = []
guard_first (c ∷ s) = if is_digit c then underscore ∷ c ∷ s else c ∷ s

unfoldable pub sanitize_agent_name : String → String
unfolding replace_others guard_first
sanitize_agent_name name =
    let sanitized = guard_first (replace_others name) in
    if sanitized == "" then agent_container_name else sanitized
