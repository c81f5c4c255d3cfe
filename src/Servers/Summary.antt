-- ===== src/Servers/Summary.antt =====
-- servers.c: serversSummary and serversList, over the servers of the table in its order.
use Prim.Native.String.{◌++◌}
use mod_janus.Base.{ℕ, String, Bool, List, [], ◌∷◌, if◌then◌else◌, or_else, decimal, take}
use mod_janus.Base.Dict.{Dict}
use mod_janus.Servers.{Server, Globals}

abbrev pub heading : String
heading = "name|enabled|registry|pod_ip|url|totalCalls|callsInProgress|started|id\n"

unfoldable pub flag_text : Bool → String
flag_text b = if b then "true" else "false"

-- the columns of a line
unfoldable pub columns : Server → List String
unfolding flag_text
columns s =
    s.name
    ∷ flag_text s.enabled
    ∷ flag_text s.dynamic
    ∷ or_else s.pod_ip ""
    ∷ or_else s.url ""
    ∷ decimal s.total_calls
    ∷ decimal s.calls_in_progress
    ∷ decimal s.started
    ∷ decimal s.server_id
    ∷ []

unfoldable pub joined_text : List String → String
joined_text [] = "\n"
joined_text (t ∷ []) = t ++ "\n"
joined_text (t ∷ u ∷ ts) = t ++ ("|" ++ joined_text (u ∷ ts))

-- char text[512], which snprintf cuts
unfoldable pub summary_line : Server → String
unfolding columns joined_text
summary_line s = take 511 (joined_text (columns s))

unfoldable pub summary_lines : (ℕ → Server) → Dict String ℕ → List String
unfolding summary_line
summary_lines heap [] = []
summary_lines heap ((k, p) ∷ servers) = summary_line (heap p) ∷ summary_lines heap servers

-- serversSummary: what it writes, in order
unfoldable pub servers_summary : Globals → List String
unfolding summary_lines
servers_summary g = heading ∷ summary_lines g.heap g.by_name

-- serversList: the names that the console offers
unfoldable pub server_names : (ℕ → Server) → Dict String ℕ → List String
server_names heap [] = []
server_names heap ((k, p) ∷ servers) = (heap p).name ∷ server_names heap servers
